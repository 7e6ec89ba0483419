-- ===== src/Voice/Grants.antt =====
-- Each flag that `permissions` grants, against a per-flag reading of Discord's rules.
use raydio.Prelude.{
  ℕ, Bool, true, false, not, ◌&&◌, ◌||◌, Option, none, some, List, [], ◌∷◌, ◌≡◌, refl, ◌∙◌, ap,
  arith, ◌==◌, any, find, Map, get,
}
use raydio.Voice.Permissions.{
  Bitflags, Overwrite, ChannelAccess, is_for_role, is_for_member, role_permissions, add_roles,
  overwritten, apply_found, collect_roles, channel_layers, permissions,
}

-- What Twilight documents of a named single-bit flag.
pub record IsFlag {P : Type 0} (b : Bitflags P) (f : P) : Type 0 where
  pub in_empty : b.contains b.empty f ≡ false
  pub in_all : b.contains b.all f ≡ true
  pub in_union : (x y : P) → b.contains (b.union x y) f ≡ (b.contains x f || b.contains y f)
  pub in_intersection :
      (x y : P) → b.contains (b.intersection x y) f ≡ (b.contains x f && b.contains y f)
  pub in_complement : (x : P) → b.contains (b.complement x) f ≡ not (b.contains x f)

module _ {P : Type 0} (b : Bitflags P) (f : P) where
  -- One flag of a role that may not exist.
  pub role_has : Map P → ℕ → Bool
  role_has roles id = elim (get id roles) [ none ↦ false | some p ↦ b.contains p f ]

  pub base_has : ℕ → List ℕ → Map P → Bool
  base_has guild member_roles roles =
      role_has roles guild || any (λ r. role_has roles r) member_roles

  -- An overwrite layer: allowed there, or held before and not denied there.
  pub layer : Bool → Bool → Bool → Bool
  layer held denied allowed = held && not denied || allowed

  pub overwrite_layer : Bool → Option (Overwrite P) → Bool
  overwrite_layer held none = held
  overwrite_layer held (some o) = layer held (b.contains o.deny f) (b.contains o.allow f)

  pub is_member_role : List ℕ → Overwrite P → Bool
  is_member_role member_roles o = is_for_role o.kind && any (λ r. r == o.id) member_roles

  -- Everyone's overwrite, then all role overwrites at once, then the member's own.
  pub layers_grant : ℕ → ℕ → List ℕ → List (Overwrite P) → Bool → Bool
  layers_grant guild user member_roles overwrites held =
      overwrite_layer
        (layer (overwrite_layer held (find (λ o. is_for_role o.kind && o.id == guild) overwrites))
          (any (λ o. is_member_role member_roles o && b.contains o.deny f) overwrites)
          (any (λ o. is_member_role member_roles o && b.contains o.allow f) overwrites))
        (find (λ o. is_for_member o.kind && o.id == user) overwrites)

module _ {P : Type 0} (b : Bitflags P) (f : P) (flag : IsFlag b f) where
  role_permissions-has :
      (roles : Map P) (id : ℕ) → b.contains (role_permissions b roles id) f ≡ role_has b f roles id
  unfolding role_permissions role_has
  role_permissions-has roles id = ground (arith, flag.in_empty)

  add_roles-has :
      (roles : Map P) (value : P) (rs : List ℕ)
      → b.contains (add_roles b roles value rs) f
        ≡ (b.contains value f || any (λ r. role_has b f roles r) rs)
  unfolding add_roles
  add_roles-has roles value [] = ground arith
  add_roles-has roles value (r ∷ rs) = ground (
    arith,
    add_roles-has roles (b.union value (role_permissions b roles r)) rs,
    flag.in_union value (role_permissions b roles r),
    role_permissions-has roles r,
  )

  overwritten-has :
      (value deny allow : P)
      → b.contains (overwritten b value deny allow) f
        ≡ layer b f (b.contains value f) (b.contains deny f) (b.contains allow f)
  unfolding overwritten layer
  overwritten-has value deny allow = ground (
    arith,
    flag.in_union (b.intersection value (b.complement deny)) allow,
    flag.in_intersection value (b.complement deny),
    flag.in_complement deny,
  )

  apply_found-has :
      (value : P) (o : Option (Overwrite P))
      → b.contains (apply_found b value o) f ≡ overwrite_layer b f (b.contains value f) o
  unfolding apply_found overwrite_layer
  apply_found-has value none = refl
  apply_found-has value (some o) = overwritten-has value o.deny o.allow

  collect_roles-has :
      (rs : List ℕ) (deny allow : P) (os : List (Overwrite P))
      → let (d, a) = collect_roles b rs deny allow os in
        (b.contains d f
          ≡ (b.contains deny f || any (λ o. is_member_role b f rs o && b.contains o.deny f) os))
        × (b.contains a f
            ≡ (b.contains allow f || any (λ o. is_member_role b f rs o && b.contains o.allow f) os))
  unfolding collect_roles is_member_role
  collect_roles-has rs deny allow [] = (ground arith, ground arith)
  collect_roles-has rs deny allow (o ∷ os) = ground (
    arith,
    collect_roles-has rs (b.union deny o.deny) (b.union allow o.allow) os,
    collect_roles-has rs deny allow os,
    flag.in_union deny o.deny,
    flag.in_union allow o.allow,
  )

  channel_layers-has :
      (guild user : ℕ) (rs : List ℕ) (os : List (Overwrite P)) (value : P)
      → b.contains (channel_layers b guild user rs os value) f
        ≡ layers_grant b f guild user rs os (b.contains value f)
  unfolding channel_layers layers_grant
  channel_layers-has guild user rs os value =
      let everyone = find (λ (o : Overwrite P). is_for_role o.kind && o.id == guild) os in
      let own = find (λ (o : Overwrite P). is_for_member o.kind && o.id == user) os in
      let collected = collect_roles b rs b.empty b.empty os in
      let base = apply_found b value everyone in
      let denied = any (λ (o : Overwrite P). is_member_role b f rs o && b.contains o.deny f) os in
      let allowed = any (λ (o : Overwrite P). is_member_role b f rs o && b.contains o.allow f) os in
      let parts = collect_roles-has rs b.empty b.empty os in
      apply_found-has (overwritten b base collected.0 collected.1) own
      ∙ ap (λ h. overwrite_layer b f h own)
          (overwritten-has base collected.0 collected.1
            ∙ layer_cong (apply_found-has value everyone)
                (parts.0 ∙ ap (λ h. h || denied) flag.in_empty)
                (parts.1 ∙ ap (λ h. h || allowed) flag.in_empty))
    where
      layer_cong :
          {h h' d d' a a' : Bool} → h ≡ h' → d ≡ d' → a ≡ a' → layer b f h d a ≡ layer b f h' d' a'
      layer_cong p q r = λ i. layer b f (p i) (q i) (r i)

-- For every flag of Twilight's set, the guild's owner and administrators hold it; anyone else
-- holds it exactly as Discord layers its overwrites: the base roles, everyone's overwrite, all
-- overwrites of the member's roles at once with allow over deny, then the member's own.
pub permissions-has :
    {P : Type 0} (b : Bitflags P) (f : P)
    → IsFlag b f
    → IsFlag b b.administrator
    → (guild user owner : ℕ) (rs : List ℕ) (roles : Map P) (c : ChannelAccess P)
    → b.contains (permissions b guild user owner rs roles c) f ≡ (
        user == owner
        || base_has b b.administrator guild rs roles
        || layers_grant b f guild user rs c.permission_overwrites (base_has b f guild rs roles))
unfolding permissions base_has
permissions-has b f flag admin guild user owner rs roles c =
    let base = role_permissions b roles guild in
    let value = add_roles b roles base rs in
    ground (
      arith,
      add_roles-has b f flag roles base rs,
      add_roles-has b b.administrator admin roles base rs,
      role_permissions-has b f flag roles guild,
      role_permissions-has b b.administrator admin roles guild,
      channel_layers-has b f flag guild user rs c.permission_overwrites value,
      flag.in_all,
    )
