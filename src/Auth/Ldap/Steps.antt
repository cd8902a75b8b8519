-- ===== src/Auth/Ldap/Steps.antt =====
-- The users that Sync of internal/auth/ldap.go deletes and adds.
use cc_backend.Common.{
  ◌≡◌, refl, sym, ap, ◌∙◌, Bool, true, false, some, List, [], ◌∷◌, inl, inr, ◌↔◌,
}
use cc_backend.Common.{ok, bind-eq-ok}
use cc_backend.Bytes.{Bytes}
use cc_backend.Maps.{Map, IsIn}
use cc_backend.Maps.{find_key_iff}
use cc_backend.Auth.{User, Schema}
use cc_backend.Auth.Ldap.{
  Where, in_db, in_ldap, in_both, SyncState, SyncStep, delete, add, mark_db, mark_ldap, ldap_user,
  sync_steps, sync, count,
}
use cc_backend.Auth.Ldap.Marks.{is_mark, mark_ldap_lem, mark_db-IsKeyed, marks_of}

abbrev is_delete : SyncStep → Bool
is_delete (delete u) = true
is_delete (add user) = false

abbrev step_name : SyncStep → Bytes
step_name (delete u) = u
step_name (add user) = user.username

sync_steps-delete :
    (sc : Schema) (del_old : Bool) (newnames : Map Bytes) (u : Bytes) (users : Map Where)
    → IsIn (delete u) (sync_steps sc del_old newnames users)
      ↔ ((del_old ≡ true) × IsIn (u, in_db) users)
unfolding sync_steps
sync_steps-delete sc del_old newnames u [] = (λ h. elim h [ ], λ h. elim h.1 [ ])
sync_steps-delete sc true newnames u ((v, in_db) ∷ users) = (
  λ h. elim h [
    | inl same ↦ (refl, (let name : u ≡ v = ap step_name same in inl (rw name refl)))
    | inr there ↦ (refl, inr (((sync_steps-delete sc true newnames u users).0 there).1))
  ],
  λ h. elim (h.1) [
    | inl same ↦ inl (ap (λ p. delete p.0) same)
    | inr there ↦ inr ((sync_steps-delete sc true newnames u users).1 (refl, there))
  ],
)
sync_steps-delete sc false newnames u ((v, in_db) ∷ users) = (
  λ h. (let never : false ≡ true = ((sync_steps-delete sc false newnames u users).0 h).0 in cc),
  λ h. (let never : false ≡ true = h.0 in cc),
)
sync_steps-delete sc del_old newnames u ((v, in_ldap) ∷ users) = (
  λ h. elim h [
    | inl same ↦ (let never : true ≡ false = ap is_delete same in cc)
    | inr there ↦
        (let (on, found) = (sync_steps-delete sc del_old newnames u users).0 there in
          (on, inr found))
  ],
  λ h. elim (h.1) [
    | inl same ↦ (let never : true ≡ false = ap (λ p. is_mark in_db (some p.1)) same in cc)
    | inr there ↦ inr ((sync_steps-delete sc del_old newnames u users).1 (h.0, there))
  ],
)
sync_steps-delete sc del_old newnames u ((v, in_both) ∷ users) = (
  λ h. (let (on, found) = (sync_steps-delete sc del_old newnames u users).0 h in (on, inr found)),
  λ h. elim (h.1) [
    | inl same ↦ (let never : true ≡ false = ap (λ p. is_mark in_db (some p.1)) same in cc)
    | inr there ↦ (sync_steps-delete sc del_old newnames u users).1 (h.0, there)
  ],
)

-- Some user of this name is added.
abbrev pub IsAdded : Bytes → List SyncStep → Type 0
IsAdded u steps = (user : User) × (user.username ≡ u) × IsIn (add user) steps

later-IsAdded :
    (u : Bytes) (s : SyncStep) (steps : List SyncStep) → IsAdded u steps → IsAdded u (s ∷ steps)
later-IsAdded u s steps (user, name, there) = (user, name, inr there)

not_deleted : (u v : Bytes) (steps : List SyncStep) → IsAdded u (delete v ∷ steps) → IsAdded u steps
not_deleted u v steps (user, name, inr there) = (user, name, there)
not_deleted u v steps (user, name, inl same) = let never : false ≡ true = ap is_delete same in cc

sync_steps-IsAdded :
    (sc : Schema) (del_old : Bool) (newnames : Map Bytes) (u : Bytes) (users : Map Where)
    → IsAdded u (sync_steps sc del_old newnames users) ↔ IsIn (u, in_ldap) users
unfolding sync_steps ldap_user
sync_steps-IsAdded sc del_old newnames u [] = (λ h. elim (h.2) [ ], λ h. elim h [ ])
sync_steps-IsAdded sc true newnames u ((v, in_db) ∷ users) = (
  λ h. inr (
      (sync_steps-IsAdded sc true newnames u users).0
        (not_deleted u v (sync_steps sc true newnames users) h)),
  λ h. elim h [
    | inl same ↦ (let never : true ≡ false = ap (λ p. is_mark in_ldap (some p.1)) same in cc)
    | inr there ↦
        later-IsAdded u (delete v) (sync_steps sc true newnames users)
          ((sync_steps-IsAdded sc true newnames u users).1 there)
  ],
)
sync_steps-IsAdded sc false newnames u ((v, in_db) ∷ users) = (
  λ h. inr ((sync_steps-IsAdded sc false newnames u users).0 h),
  λ h. elim h [
    | inl same ↦ (let never : true ≡ false = ap (λ p. is_mark in_ldap (some p.1)) same in cc)
    | inr there ↦ (sync_steps-IsAdded sc false newnames u users).1 there
  ],
)
sync_steps-IsAdded sc del_old newnames u ((v, in_ldap) ∷ users) = (
  λ h. elim (h.2) [
    | inl same ↦ (let name : u ≡ v = sym (h.1) ∙ ap step_name same in inl (rw name refl))
    | inr there ↦ inr ((sync_steps-IsAdded sc del_old newnames u users).0 (h.0, h.1, there))
  ],
  λ h. elim h [
    | inl same ↦ (ldap_user sc newnames v, sym (ap (λ p. p.0) same), inl refl)
    | inr there ↦
        later-IsAdded u (add (ldap_user sc newnames v)) (sync_steps sc del_old newnames users)
          ((sync_steps-IsAdded sc del_old newnames u users).1 there)
  ],
)
sync_steps-IsAdded sc del_old newnames u ((v, in_both) ∷ users) = (
  λ h. inr ((sync_steps-IsAdded sc del_old newnames u users).0 h),
  λ h. elim h [
    | inl same ↦ (let never : true ≡ false = ap (λ p. is_mark in_ldap (some p.1)) same in cc)
    | inr there ↦ (sync_steps-IsAdded sc del_old newnames u users).1 there
  ],
)

-- As far as no call of the table fails, Sync deletes the users of the table without an entry, if it
-- is set to, and adds those outside of it that have exactly one entry.
pub sync_lem :
    (sc : Schema) (del_old : Bool) (usernames : List Bytes) (entries : List (Bytes × Bytes))
    {steps : List SyncStep}
    → sync sc del_old usernames entries ≡ ok steps
    → (u : Bytes)
    → (IsIn (delete u) steps ↔ ((del_old ≡ true) × IsIn u usernames × (count u entries ≡ 0)))
      × (IsAdded u steps ↔ ((IsIn u usernames → ⊥) × (count u entries ≡ 1)))
unfolding sync
sync_lem sc del_old usernames entries {steps} e u =
    let start : SyncState = record { users = mark_db usernames []; newnames = [] } in
    let (st, read, out) =
      bind-eq-ok (mark_ldap entries start) (λ st. ok (sync_steps sc del_old st.newnames st.users))
        e in
    let same : sync_steps sc del_old st.newnames st.users ≡ steps = cc in
    let (keyed, found) = mark_ldap_lem entries start read (mark_db-IsKeyed usernames [] tt) in
    let (old, new) = marks_of u usernames entries st.users (found u) in
    let deletes = sync_steps-delete sc del_old st.newnames u st.users in
    let adds = sync_steps-IsAdded sc del_old st.newnames u st.users in
    let in_table = find_key_iff u in_db st.users keyed in
    let in_directory = find_key_iff u in_ldap st.users keyed in
    rw (← same) (
      (
        λ h. (let (on, there) = deletes.0 h in let (a, b) = old.0 (in_table.0 there) in (on, a, b)),
        λ h. deletes.1 (h.0, in_table.1 (old.1 (h.1, h.2))),
      ),
      (λ h. new.0 (in_directory.0 (adds.0 h)), λ h. adds.1 (in_directory.1 (new.1 h))),
    )
