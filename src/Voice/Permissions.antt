-- ===== src/Voice/Permissions.antt =====
-- `permissions` of src/voice.rs. Twilight's `Permissions` is a parameter: a type with the
-- operations of its bit flags.
use raydio.Prelude.{
  ℕ, Bool, true, false, ◌&&◌, ◌||◌, Option, none, some, List, [], ◌∷◌, ◌==◌, if◌then◌else◌, any,
  find, Map, get,
}

pub record Bitflags (P : Type 0) : Type 0 where
  pub empty : P
  pub all : P
  pub union : P → P → P  -- `|`
  pub intersection : P → P → P  -- `&`
  pub complement : P → P  -- `!`
  pub contains : P → P → Bool
  pub view_channel : P
  pub connect : P
  pub speak : P
  pub administrator : P

pub data ChannelKind : Type 0 where
  guild_voice : ChannelKind
  other_kind : ℕ → ChannelKind

pub data OverwriteKind : Type 0 where
  for_role for_member : OverwriteKind
  unknown : ℕ → OverwriteKind

abbrev pub is_for_role : OverwriteKind → Bool
is_for_role for_role = true
is_for_role _ = false

abbrev pub is_for_member : OverwriteKind → Bool
is_for_member for_member = true
is_for_member _ = false

pub record Overwrite (P : Type 0) : Type 0 where
  pub id : ℕ
  pub kind : OverwriteKind
  pub allow : P
  pub deny : P

pub record ChannelAccess (P : Type 0) : Type 0 where
  pub kind : ChannelKind
  pub user_limit : Option ℕ
  pub permission_overwrites : List (Overwrite P)

module _ {P : Type 0} (b : Bitflags P) where
  open b use {empty, union, intersection, complement, contains, administrator}

  -- `roles.get(id).copied().unwrap_or_else(Permissions::empty)`
  unfoldable pub role_permissions : Map P → ℕ → P
  role_permissions roles id = elim (get id roles) [ none ↦ empty | some p ↦ p ]

  -- The loop over the member's roles.
  unfoldable pub add_roles : Map P → P → List ℕ → P
  unfolding role_permissions
  add_roles roles value [] = value
  add_roles roles value (r ∷ rs) = add_roles roles (union value (role_permissions roles r)) rs

  -- `(value & !deny) | allow`
  unfoldable pub overwritten : P → P → P → P
  overwritten value deny allow = union (intersection value (complement deny)) allow

  unfoldable pub apply_found : P → Option (Overwrite P) → P
  unfolding overwritten
  apply_found value none = value
  apply_found value (some o) = overwritten value o.deny o.allow

  -- The loop that collects what the member's roles deny and allow.
  unfoldable pub collect_roles : List ℕ → P → P → List (Overwrite P) → P × P
  collect_roles member_roles deny allow [] = (deny, allow)
  collect_roles member_roles deny allow (o ∷ os) =
      if is_for_role o.kind && any (λ r. r == o.id) member_roles
      then collect_roles member_roles (union deny o.deny) (union allow o.allow) os
      else collect_roles member_roles deny allow os

  -- The overwrites of `permissions`, after the test for owners and administrators.
  unfoldable pub channel_layers : ℕ → ℕ → List ℕ → List (Overwrite P) → P → P
  unfolding apply_found collect_roles overwritten
  channel_layers guild user member_roles overwrites value =
      let everyone =
        apply_found value (find (λ o. is_for_role o.kind && o.id == guild) overwrites) in
      let (deny, allow) = collect_roles member_roles empty empty overwrites in
      apply_found (overwritten everyone deny allow)
        (find (λ o. is_for_member o.kind && o.id == user) overwrites)

  unfoldable pub permissions : ℕ → ℕ → ℕ → List ℕ → Map P → ChannelAccess P → P
  unfolding add_roles channel_layers role_permissions
  permissions guild user owner member_roles roles channel =
      let value = add_roles roles (role_permissions roles guild) member_roles in
      if user == owner || contains value administrator
      then b.all
      else channel_layers guild user member_roles channel.permission_overwrites value
