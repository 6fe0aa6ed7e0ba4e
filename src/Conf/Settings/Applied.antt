-- ===== src/Conf/Settings/Applied.antt =====
-- One directive of Settings, and what it leaves set: the directives as data (`Setting`), the parts of
-- the configuration that a directive may set only once (`Slot`), and what an accepted directive does
-- to them.
use rl_nginx.Base.{ℕ, ◌||◌, Bool, true, false, some, List, Bytes, ◌≡◌, refl, is_some}
use rl_nginx.Policy.{RequestPolicy, PolicyKind}
use rl_nginx.Conf.{Address, MainConf}
use rl_nginx.Conf.Settings.{KeyInfo}

-- A directive with its arguments.
pub data Setting : Type 0 where
  dns_srv auth_key fail bind debug : Bytes → Setting
  dns_resolver : List Bytes → Setting
  policy : Bytes → List Bytes → Setting

-- The directives that may stand once.
pub data Slot : Type 0 where
  srv_slot resolver_slot key_slot policy_slot bind_slot debug_slot : Slot

unfoldable pub fills : Slot → Setting → Bool
fills srv_slot (dns_srv v) = true
fills resolver_slot (dns_resolver v) = true
fills key_slot (auth_key v) = true
fills policy_slot (policy name args) = true
fills bind_slot (bind v) = true
fills debug_slot (debug v) = true
fills _ _ = false

-- Whether the configuration holds a value for it.
unfoldable pub is_set : Slot → MainConf → Bool
is_set srv_slot mcf = is_some mcf.tenant_dns
is_set resolver_slot mcf = is_some mcf.resolver
is_set key_slot mcf = is_some mcf.auth_key
is_set policy_slot mcf = mcf.request_policy_set
is_set bind_slot mcf = is_some mcf.bind
is_set debug_slot mcf = mcf.debug_set

-- After a directive that was accepted: its own value was unset and is set, the others are as before.
abbrev pub Applied : Setting → MainConf → MainConf → Type 0
Applied s mcf mcf' =
    (slot : Slot)
    → (is_set slot mcf' ≡ (fills slot s || is_set slot mcf))
      × (fills slot s ≡ true → is_set slot mcf ≡ false)

pub tenant-Applied :
    (v : Bytes) (mcf : MainConf)
    → is_some mcf.tenant_dns ≡ false
    → Applied (dns_srv v) mcf (record mcf { tenant_dns = some v })
unfolding fills is_set
tenant-Applied v mcf unset srv_slot = (refl, λ _. unset)
tenant-Applied v mcf unset resolver_slot = (refl, λ h. cc)
tenant-Applied v mcf unset key_slot = (refl, λ h. cc)
tenant-Applied v mcf unset policy_slot = (refl, λ h. cc)
tenant-Applied v mcf unset bind_slot = (refl, λ h. cc)
tenant-Applied v mcf unset debug_slot = (refl, λ h. cc)

pub resolver-Applied :
    (vs : List Bytes) (resolver : ℕ) (mcf : MainConf)
    → is_some mcf.resolver ≡ false
    → Applied (dns_resolver vs) mcf (record mcf { resolver = some resolver })
unfolding fills is_set
resolver-Applied vs resolver mcf unset srv_slot = (refl, λ h. cc)
resolver-Applied vs resolver mcf unset resolver_slot = (refl, λ _. unset)
resolver-Applied vs resolver mcf unset key_slot = (refl, λ h. cc)
resolver-Applied vs resolver mcf unset policy_slot = (refl, λ h. cc)
resolver-Applied vs resolver mcf unset bind_slot = (refl, λ h. cc)
resolver-Applied vs resolver mcf unset debug_slot = (refl, λ h. cc)

pub key-Applied :
    (v : Bytes) (info : KeyInfo) (mcf : MainConf)
    → is_some mcf.auth_key ≡ false
    → Applied (auth_key v) mcf (record mcf {
      auth_key = some v;
      auth_type = info.auth_type;
      key_id = info.key_id;
      dedup_ttl_ms_max = info.dedup_ttl_ms_max;
    })
unfolding fills is_set
key-Applied v info mcf unset srv_slot = (refl, λ h. cc)
key-Applied v info mcf unset resolver_slot = (refl, λ h. cc)
key-Applied v info mcf unset key_slot = (refl, λ _. unset)
key-Applied v info mcf unset policy_slot = (refl, λ h. cc)
key-Applied v info mcf unset bind_slot = (refl, λ h. cc)
key-Applied v info mcf unset debug_slot = (refl, λ h. cc)

pub chosen-Applied :
    (name : Bytes) (args : List Bytes) (kind : PolicyKind) (chosen : RequestPolicy) (mcf : MainConf)
    → mcf.request_policy_set ≡ false
    → Applied (policy name args) mcf (record mcf {
      request_policy = chosen;
      request_policy_kind = kind;
      request_policy_set = true;
    })
unfolding fills is_set
chosen-Applied name args kind chosen mcf unset srv_slot = (refl, λ h. cc)
chosen-Applied name args kind chosen mcf unset resolver_slot = (refl, λ h. cc)
chosen-Applied name args kind chosen mcf unset key_slot = (refl, λ h. cc)
chosen-Applied name args kind chosen mcf unset policy_slot = (refl, λ _. unset)
chosen-Applied name args kind chosen mcf unset bind_slot = (refl, λ h. cc)
chosen-Applied name args kind chosen mcf unset debug_slot = (refl, λ h. cc)

pub bound-Applied :
    (v : Bytes) (address : Address) (mcf : MainConf)
    → is_some mcf.bind ≡ false
    → Applied (bind v) mcf (record mcf { bind = some address })
unfolding fills is_set
bound-Applied v address mcf unset srv_slot = (refl, λ h. cc)
bound-Applied v address mcf unset resolver_slot = (refl, λ h. cc)
bound-Applied v address mcf unset key_slot = (refl, λ h. cc)
bound-Applied v address mcf unset policy_slot = (refl, λ h. cc)
bound-Applied v address mcf unset bind_slot = (refl, λ _. unset)
bound-Applied v address mcf unset debug_slot = (refl, λ h. cc)

pub debugged-Applied :
    (v : Bytes) (on : Bool) (mcf : MainConf)
    → mcf.debug_set ≡ false
    → Applied (debug v) mcf (record mcf { debug = on; debug_set = true })
unfolding fills is_set
debugged-Applied v on mcf unset srv_slot = (refl, λ h. cc)
debugged-Applied v on mcf unset resolver_slot = (refl, λ h. cc)
debugged-Applied v on mcf unset key_slot = (refl, λ h. cc)
debugged-Applied v on mcf unset policy_slot = (refl, λ h. cc)
debugged-Applied v on mcf unset bind_slot = (refl, λ h. cc)
debugged-Applied v on mcf unset debug_slot = (refl, λ _. unset)

pub fail-Applied :
    (v : Bytes) (open_ : Bool) (mcf : MainConf)
    → Applied (fail v) mcf (record mcf { fail_open = open_ })
unfolding fills is_set
fail-Applied v open_ mcf srv_slot = (refl, λ h. cc)
fail-Applied v open_ mcf resolver_slot = (refl, λ h. cc)
fail-Applied v open_ mcf key_slot = (refl, λ h. cc)
fail-Applied v open_ mcf policy_slot = (refl, λ h. cc)
fail-Applied v open_ mcf bind_slot = (refl, λ h. cc)
fail-Applied v open_ mcf debug_slot = (refl, λ h. cc)
