-- ===== src/Registrator.antt =====
-- _internal/broker/registrator.py: brokers and routers: their members, and how one is included in another.
pub mod Linking
pub mod Inclusion
pub mod Members
use faststream.Prelude.{
  ℕ, Bool, true, false, Option, none, some, List, [], ◌∷◌, ◌++◌, ◌==◌, any, suc, zero,
  if◌then◌else◌,
}
use faststream.Exceptions.{Result, ok, err, raised, value_error}
use faststream.Configs.{BrokerConfig, is_valuable}

-- An entry of `config.configs`: a configuration, or the composition of another registrator, which
-- is shared with it.
pub data Entry : Type 0 where
  own : BrokerConfig → Entry
  composed : ℕ → Entry

pub record Registrator : Type 0 where
  pub configs : List Entry
  pub parent : Option ℕ
  pub routers : List ℕ
  -- the members of the sets, in some order
  pub own_subscribers : List ℕ
  pub own_publishers : List ℕ
  pub persistent_subscribers : List ℕ
  pub persistent_publishers : List ℕ

-- The registrator objects, by their numbers.
abbrev pub Store : Type 0
Store = ℕ → Registrator

abbrev pub put : ℕ → Registrator → Store → Store
put n r store m = if m == n then r else store m

-- router in lists: list.remove, which raises `ValueError`
unfoldable pub remove : ℕ → List ℕ → Result (List ℕ)
remove x [] = err (raised value_error)
remove x (y ∷ ys) =
    let rest = remove x ys in
    if x == y then ok ys else elim rest [ ok zs ↦ ok (y ∷ zs) | err e ↦ err e ]

-- ConfigComposition.reset
unfoldable pub reset_configs : List Entry → List Entry
reset_configs [] = []
reset_configs (c ∷ []) = c ∷ []
reset_configs (c ∷ (d ∷ cs)) = reset_configs (d ∷ cs)

abbrev with_parent : ℕ → ℕ → Store → Store
with_parent self parent store = put self (record (store self) { parent = some parent }) store

-- self.__parent.routers.remove(self); self.config.reset()
abbrev forget : ℕ → ℕ → Store → Result Store
forget self old store = elim (remove self (store old).routers) [
  | err e ↦ err e
  | ok left ↦
      let removed : Store = put old (record (store old) { routers = left }) store in
      ok (
        put self (record (removed self) { configs = reset_configs (removed self).configs }) removed)
]

pub set_parent_from : ℕ → ℕ → Option ℕ → Store → Result Store
set_parent_from self parent none store = ok (with_parent self parent store)
set_parent_from self parent (some old) store =
    if old == parent then ok (with_parent self parent store) else elim (forget self old store) [
      | err e ↦ err e
      | ok store' ↦ ok (with_parent self parent store')
    ]

-- the setter of `parent`
unfoldable pub set_parent : ℕ → ℕ → Store → Result Store
unfolding set_parent_from
set_parent self parent store = set_parent_from self parent (store self).parent store

unfoldable pub add_config : ℕ → Entry → Store → Store
add_config router config store =
    put router (record (store router) { configs = config ∷ (store router).configs }) store

abbrev pub is_parent : Option ℕ → ℕ → Bool
is_parent none self = false
is_parent (some p) self = p == self

-- what follows `router.parent = self`
abbrev attach : ℕ → ℕ → BrokerConfig → Store → Store
attach self router options_config store =
    let with_options : Store =
      if is_valuable options_config then add_config router (own options_config) store else store in
    let with_config : Store = add_config router (composed self) with_options in
    put self (record (with_config self) { routers = (with_config self).routers ++ router ∷ [] })
      with_config

unfoldable pub include_router : ℕ → ℕ → BrokerConfig → Store → Result Store
unfolding set_parent add_config
include_router self router options_config store =
    if is_parent (store router).parent self then ok store else elim (set_parent router self store) [
      | err e ↦ err e
      | ok store' ↦ ok (attach self router options_config store')
    ]

-- include_routers
unfoldable pub include_routers : ℕ → List ℕ → BrokerConfig → Store → Result Store
unfolding include_router
include_routers self [] no_options store = ok store
include_routers self (r ∷ rs) no_options store = elim (include_router self r no_options store) [
  | err e ↦ err e
  | ok store' ↦ include_routers self rs no_options store'
]

-- set.add
abbrev added : ℕ → List ℕ → List ℕ
added x xs = if any (λ y. y == x) xs then xs else xs ++ x ∷ []

abbrev kept_if : Bool → ℕ → List ℕ → List ℕ
kept_if persistent x xs = if persistent then xs ++ x ∷ [] else xs

unfoldable pub subscriber : ℕ → ℕ → Bool → Store → Store
subscriber self sub persistent store =
    put self
      (record (store self) {
        own_subscribers = added sub (store self).own_subscribers;
        persistent_subscribers = kept_if persistent sub (store self).persistent_subscribers;
      })
      store

unfoldable pub publisher : ℕ → ℕ → Bool → Store → Store
publisher self pub_ persistent store =
    put self
      (record (store self) {
        own_publishers = added pub_ (store self).own_publishers;
        persistent_publishers = kept_if persistent pub_ (store self).persistent_publishers;
      })
      store

-- [x for r in routers for x in collect(r)]
abbrev pub of_each : (ℕ → List ℕ) → List ℕ → List ℕ
of_each collect [] = []
of_each collect (r ∷ routers) = collect r ++ of_each collect routers

-- The own ones of a registrator, and those of its routers, down to a depth of `fuel`.
unfoldable pub collected : (Registrator → List ℕ) → ℕ → Store → ℕ → List ℕ
collected own_ones zero store self = []
collected own_ones (suc fuel) store self =
    own_ones (store self) ++ of_each (collected own_ones fuel store) (store self).routers

-- the properties `subscribers` and `publishers`
unfoldable pub subscribers : ℕ → Store → ℕ → List ℕ
unfolding collected
subscribers fuel store self = collected (λ r. r.own_subscribers) fuel store self

unfoldable pub publishers : ℕ → Store → ℕ → List ℕ
unfolding collected
publishers fuel store self = collected (λ r. r.own_publishers) fuel store self
