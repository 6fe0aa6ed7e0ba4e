-- ===== src/Conf/Closed/Read.antt =====
-- The directives of the whole configuration in the order in which nginx reads them, each in the main
-- configuration or in one of the locations, and the merges of locations. nginx's answers are given
-- with each directive.
use rl_nginx.Base.{ℕ, List, [], ◌∷◌, Bytes, ◌==◌, if◌then◌else◌, Result, ok}
use rl_nginx.Base.Results.{◌>>=◌}
use rl_nginx.Policy.{RequestPolicy}
use rl_nginx.Conf.{create_main_conf, create_loc_conf, MainConf, LocConf, Ngx, DirectiveError}
use rl_nginx.Conf.ZoneDirective.{zone}
use rl_nginx.Conf.TrackerDirective.{tracker}
use rl_nginx.Conf.GuardDirective.{latency_guard}
use rl_nginx.Conf.GroupDirective.{group}
use rl_nginx.Conf.RuleDirective.{rule}
use rl_nginx.Conf.Location.{label, report}
use rl_nginx.Conf.Merge.{merge_loc_conf}
use rl_nginx.Conf.Settings.Applied.{Setting}
use rl_nginx.Conf.Settings.Once.{Outside, apply}

-- The main configuration and the locations by number.
pub record Configuration : Type 0 where
  pub main : MainConf
  pub locations : ℕ → LocConf

pub data Directive : Type 0 where
  declare_zone declare_tracker declare_guard declare_group : Bytes → List Bytes → Directive
  set_value : Setting → Directive
  add_rule : ℕ → List Bytes → Directive
  set_label set_report : ℕ → Bytes → Directive
  merge_into : ℕ → ℕ → Directive

-- What nginx starts from.
unfoldable pub at_start : RequestPolicy → Configuration
unfolding create_main_conf create_loc_conf
at_start default_policy = record {
  main = create_main_conf default_policy;
  locations = λ i. create_loc_conf;
}

abbrev pub with_location : ℕ → LocConf → (ℕ → LocConf) → ℕ → LocConf
with_location at lcf locations i = if i == at then lcf else locations i

abbrev pub with_main : Configuration → MainConf → Configuration
with_main c mcf = record c { main = mcf }

abbrev pub with_both : Configuration → ℕ → MainConf × LocConf → Configuration
with_both c at (mcf, lcf) = record { main = mcf; locations = with_location at lcf c.locations }

module _ (outside : Outside) where
  unfoldable pub read_directive :
      Ngx × Directive → Configuration → Result DirectiveError Configuration
  read_directive (ngx, declare_zone name args) c = do
    mcf ← zone ngx c.main name args
    ok (with_main c mcf)
  read_directive (ngx, declare_tracker name args) c = do
    mcf ← tracker ngx c.main name args
    ok (with_main c mcf)
  read_directive (ngx, declare_guard name args) c = do
    mcf ← latency_guard ngx c.main name args
    ok (with_main c mcf)
  read_directive (ngx, declare_group name args) c = do
    mcf ← group ngx c.main name args
    ok (with_main c mcf)
  read_directive (ngx, set_value s) c = do mcf ← apply outside s c.main; ok (with_main c mcf)
  read_directive (ngx, add_rule at args) c = do
    both ← rule ngx c.main (c.locations at) args
    ok (with_both c at both)
  read_directive (ngx, set_label at value) c = do
    lcf ← label ngx (c.locations at) value
    ok (with_both c at (c.main, lcf))
  read_directive (ngx, set_report at value) c = do
    both ← report c.main (c.locations at) value
    ok (with_both c at both)
  read_directive (ngx, merge_into at parent) c =
      ok (with_both c at (c.main, merge_loc_conf (c.locations parent) (c.locations at)))

  unfoldable pub read_all :
      List (Ngx × Directive) → Configuration → Result DirectiveError Configuration
  unfolding read_directive
  read_all [] c = ok c
  read_all (d ∷ ds) c = do c' ← read_directive d c; read_all ds c'
