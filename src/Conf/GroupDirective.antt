-- ===== src/Conf/GroupDirective.antt =====
-- `ngx_http_rn_group`: the directive `ratelimitly_group <name> zone=...`.
use rl_nginx.Base.{
  ℕ, ◌+◌, not, ◌||◌, none, some, List, [], ◌∷◌, ◌++◌, Bytes, codes, strip_prefix, is_some, Result,
  ok, err, guard,
}
use rl_nginx.Base.Results.{◌>>=◌, ◌>>◌}
use rl_nginx.Conf.{
  Group, MainConf, Ngx, DirectiveError, conf_error, missing_name, invalid_argument,
  missing_argument, duplicate_name, empty_reference, unknown_zone, is_empty, is_name, find_zone,
  find_group,
}

module _ (ngx : Ngx) where
  -- The loop over the zone references; the k-th push is the allocation `k + 3`.
  unfoldable pub group_zones : MainConf → ℕ → List Bytes → Result DirectiveError (List Bytes)
  group_zones mcf k [] = ok []
  group_zones mcf k (arg ∷ args) = elim (strip_prefix (codes "zone=") arg) [
    | none ↦ err invalid_argument
    | some zname ↦ do
      guard empty_reference (not (is_empty zname))
      guard unknown_zone (is_some (find_zone mcf zname))
      guard conf_error (ngx.alloc (k + 3))
      rest ← group_zones mcf (k + 1) args
      ok (zname ∷ rest)
  ]

  unfoldable pub group : MainConf → Bytes → List Bytes → Result DirectiveError MainConf
  unfolding group_zones
  group mcf name args = do
    guard missing_argument (not (is_empty args))
    guard missing_name (is_name name)
    guard conf_error (not (is_empty mcf.groups) || ngx.alloc 0)
    guard duplicate_name (not (is_some (find_group mcf name)))
    guard conf_error (ngx.alloc 1)
    guard conf_error (ngx.alloc 2)
    zones ← group_zones mcf 0 args
    let entry : Group = record { name = name; zones = zones }
    ok (record mcf { groups = mcf.groups ++ entry ∷ [] })
