-- ===== src/Auth/Ldap.antt =====
-- Sync of internal/auth/ldap.go: which users it deletes from the table of users and which it adds,
-- by the names in the table and the entries that the directory yields. Both are parameters.
pub mod Marks
pub mod Steps
use cc_backend.Common.{
  ℕ, zero, suc, ◌+◌, ◌-◌, ◌*◌, ◌/◌, ◌%◌, ◌^◌, ◌≤◌, ◌<◌, ℤ, pos, negsuc, sub_ℕ, pos_part, neg_part,
  ltb_ℤ, leb_ℤ, ◌≤ℤ◌, ◌<ℤ◌, ◌+ℤ◌, ◌-ℤ◌, ◌≡◌, refl, sym, ap, ◌∙◌, Bool, true, false, not, ◌&&◌, ◌||◌,
  Option, none, some, List, [], ◌∷◌, ◌++◌, map, append-nil, append_assoc, ltb, leb, ◌==◌, length,
  get_elem?, ◌⊎◌, inl, inr, ◌↔◌, ◌≢◌, get_or, set, replicate, take, drop, if◌then◌else◌, arith,
  int_laws, Bool-cases, Option-cases, length-append, length-replicate, length-set, All, All-append,
  le→leb, gt→leb, lt→ltb, ge→ltb, ltb→lt, leb→le, ==_iff,
}
use cc_backend.Common.{Result, ok, err, ◌>>=◌, or_error, bind-eq-ok, guard-eq-ok, Result-cases}
use cc_backend.Bytes.{Bytes, key_eq, key_eq_iff, key_eq_refl}
use cc_backend.Maps.{
  Map, find_key, set_key, IsIn, IsIn-append, IsIn-last, All-map, AllKeys, find_key-All, set_key-All,
}
use cc_backend.Maps.{
  find_key-set_key, find_key-set_key_other, IsKeyed, set_key-IsKeyed, find_key_iff,
}
use cc_backend.Auth.{User, Schema}

pub data Where : Type 0 where
  in_db in_ldap in_both : Where

-- An entry without a name.
pub data SyncError : Type 0 where
  no_attribute : SyncError

pub record SyncState : Type 0 where
  pub users : Map Where
  pub newnames : Map Bytes

-- The calls of DelUser and AddUserIfNotExists.
pub data SyncStep : Type 0 where
  delete : Bytes → SyncStep
  add : User → SyncStep

unfoldable pub mark_db : List Bytes → Map Where → Map Where
mark_db [] users = users
mark_db (username ∷ usernames) users = mark_db usernames (set_key username in_db users)

-- The loop over the entries: the name and the full name of each.
unfoldable pub mark_ldap : List (Bytes × Bytes) → SyncState → Result SyncError SyncState
mark_ldap [] st = ok st
mark_ldap (([], name) ∷ entries) st = err no_attribute
mark_ldap ((c ∷ cs, name) ∷ entries) st =
    let username = c ∷ cs in
    let new = mark_ldap entries (record {
      users = set_key username in_ldap st.users;
      newnames = set_key username name st.newnames;
    }) in
    let known = mark_ldap entries (record st { users = set_key username in_both st.users }) in
    elim (find_key username st.users) [ none ↦ new | some w ↦ known ]

unfoldable pub ldap_user : Schema → Map Bytes → Bytes → User
ldap_user sc newnames username = record {
  username = username;
  name = elim (find_key username newnames) [ none ↦ [] | some name ↦ name ];
  password = [];
  roles = sc.role_name sc.role_user ∷ [];
  projects = [];
  auth_type = sc.auth_type_zero;
  auth_source = sc.via_ldap;
}

-- The loop over the map of users, whose order is free.
unfoldable pub sync_steps : Schema → Bool → Map Bytes → Map Where → List SyncStep
sync_steps sc del_old newnames [] = []
sync_steps sc del_old newnames ((username, in_db) ∷ users) =
    let rest = sync_steps sc del_old newnames users in
    if del_old then delete username ∷ rest else rest
sync_steps sc del_old newnames ((username, in_ldap) ∷ users) =
    add (ldap_user sc newnames username) ∷ sync_steps sc del_old newnames users
sync_steps sc del_old newnames ((username, in_both) ∷ users) = sync_steps sc del_old newnames users

-- Sync, as far as no call of the table fails.
unfoldable pub sync :
    Schema → Bool → List Bytes → List (Bytes × Bytes) → Result SyncError (List SyncStep)
sync sc del_old usernames entries =
    mark_ldap entries (record { users = mark_db usernames []; newnames = [] })
    >>= (λ st. ok (sync_steps sc del_old st.newnames st.users))

unfoldable pub count : Bytes → List (Bytes × Bytes) → ℕ
count u [] = 0
count u ((v, name) ∷ entries) = let rest = count u entries in if key_eq v u then suc rest else rest

-- What entries with its name do to the mark of a user.
unfoldable pub marks : ℕ → Option Where → Option Where
marks zero o = o
marks (suc n) none = marks n (some in_ldap)
marks (suc n) (some w) = marks n (some in_both)
