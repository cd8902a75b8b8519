-- ===== src/Store/Archived.antt =====
-- When `toCheckpointFile` of pkg/metricstore/checkpoint.go has nothing to save.
use cc_backend.Common.{
  ℕ, ◌+◌, ℤ, pos, pos_part, neg_part, leb_ℤ, ◌≤ℤ◌, ◌≡◌, refl, sym, ◌∙◌, Bool, true, false, ◌&&◌,
  Option, none, some, List, [], ◌∷◌, ◌++◌, inl, inr, ◌↔◌, get_or, Bool-cases, All, le→leb, leb→le,
}
use cc_backend.Bytes.{Bytes}
use cc_backend.Common.{List-cases, and-eq-true}
use cc_backend.Buffer.{Buffer, Floats, finish}
use cc_backend.Level.{Level, level, Children, nil, cons}
use cc_backend.Level.Visit.{iter_from_to}
use cc_backend.Wal.Snapshot.{Entry, CheckpointFile, file, Files, no_files, sub}
use cc_backend.Store.Save.{
  Saved, panics, nothing, holds, all_archived, saved_if, IsArchived, IsArchivedLevel,
  IsArchivedBelow, data_of, level_file, child_file, save_metrics, to_checkpoint_file, save_children,
}

and_iff :
    {P Q : Type 0} (a b : Bool) → (a ≡ true) ↔ P → (b ≡ true) ↔ Q → ((a && b) ≡ true) ↔ (Q × P)
and_iff a b h k =
    (λ e. (let (x, y) = and-eq-true a b e in (k.0 y, h.0 x)), λ e. rw (h.1 e.1, k.1 e.0) refl)

leb_ℤ_iff : (a b : ℤ) → (leb_ℤ a b ≡ true) ↔ (a ≤ℤ b)
leb_ℤ_iff a b = (
  λ e. leb→le (pos_part a + neg_part b) (pos_part b + neg_part a) e,
  λ h. le→leb (pos_part a + neg_part b) (pos_part b + neg_part a) h,
)

module _ {F : Type 0} where
  all_archived-append :
      (xs : List (Buffer F)) (b : Buffer F)
      → all_archived (xs ++ b ∷ []) ≡ (all_archived xs && b.archived)
  unfolding all_archived
  all_archived-append [] b = elim (Bool-cases b.archived) [ inl e ↦ rw e refl | inr e ↦ rw e refl ]
  all_archived-append (x ∷ xs) b = elim (Bool-cases x.archived) [
    | inl e ↦ rw e (all_archived-append xs b)
    | inr e ↦ rw e refl
  ]

  overlaps :
      (from to : ℤ) (b : Buffer F)
      → ((leb_ℤ from (finish b) && leb_ℤ b.start to) ≡ true)
        ↔ ((b.start ≤ℤ to) × (from ≤ℤ finish b))
  overlaps from to b =
      and_iff (leb_ℤ from (finish b)) (leb_ℤ b.start to) (leb_ℤ_iff from (finish b))
        (leb_ℤ_iff b.start to)

  all_archived_iff :
      (from to : ℤ) (c : List (Buffer F))
      → (all_archived (iter_from_to c from to) ≡ true) ↔ IsArchived from to c
  unfolding iter_from_to
  all_archived_iff from to [] = unfold all_archived in (λ e. tt, λ e. refl)
  all_archived_iff from to (b ∷ older) =
      let rest = all_archived_iff from to older in
      elim (Bool-cases (leb_ℤ from (finish b) && leb_ℤ b.start to)) [
        | inl over ↦
            rw (over, all_archived-append (iter_from_to older from to) b)
              (and_iff (all_archived (iter_from_to older from to)) b.archived rest (
                λ e. λ x. λ y. e,
                λ e. e (((overlaps from to b).0 over).1) (((overlaps from to b).0 over).0),
              ))
        | inr apart ↦ rw apart (
          λ e. (
            λ x.
                λ y. (let never : true ≡ false = sym ((overlaps from to b).1 (y, x)) ∙ apart in cc),
            rest.0 e,
          ),
          λ e. rest.1 e.1,
        )
      ]

booleans_differ : true ≡ false → ⊥
booleans_differ e = cc

no_entries :
    {F : Type 0} (e : Entry F) (rest : Option (List (Entry F)))
    → (elim rest [ none ↦ none | some es ↦ some (e ∷ es) ]) ≡ some []
    → ⊥
no_entries e none h = let never : none ≡ some [] = h in cc
no_entries e (some es) h = let never : some (e ∷ es) ≡ some [] = h in cc

holds_nothing : {F : Type 0} (f : CheckpointFile F) → holds f ≡ nothing → ⊥
holds_nothing f e = cc

none_nothing : {A : Type 0} {a : A} → none ≡ some a → ⊥
none_nothing e = cc

panics_nothing : {F : Type 0} (r : Saved F) → r ≡ panics → r ≡ nothing → ⊥
panics_nothing r e h = cc

options_differ : {A : Type 0} {a : A} → none ≡ some a → ⊥
options_differ e = cc

child_file_iff :
    {F : Type 0} (k : Bytes) (r : Saved F) (rest : Option (Files F))
    → (child_file k r rest ≡ some no_files) ↔ ((r ≡ nothing) × (rest ≡ some no_files))
unfolding child_file
child_file_iff k panics rest =
    (λ e. absurd (options_differ e), λ h. absurd (panics_nothing panics refl h.0))
child_file_iff k nothing rest = (λ e. (refl, e), λ h. h.1)
child_file_iff k (holds f) none =
    (λ e. absurd (options_differ e), λ h. absurd (holds_nothing f h.0))
child_file_iff k (holds f) (some fs) = (
  λ e. let never : some (sub k f fs) ≡ some no_files = e in cc,
  λ h. absurd (holds_nothing f h.0),
)

level_file_iff :
    {F : Type 0} (own : Option (List (Entry F))) (below : Option (Files F))
    → (level_file own below ≡ nothing) ↔ ((own ≡ some []) × (below ≡ some no_files))
unfolding level_file saved_if
level_file_iff none below =
    (λ e. absurd (panics_nothing panics refl e), λ h. absurd (options_differ h.0))
level_file_iff (some es) none =
    (λ e. absurd (panics_nothing panics refl e), λ h. absurd (options_differ h.1))
level_file_iff (some []) (some no_files) = (λ e. (refl, refl), λ h. refl)
level_file_iff (some []) (some (sub k f fs)) = (
  λ e. absurd (holds_nothing (file [] (sub k f fs)) e),
  λ h. let never : some (sub k f fs) ≡ some no_files = h.1 in cc,
)
level_file_iff (some (x ∷ es)) (some fs) = (
  λ e. absurd (holds_nothing (file (x ∷ es) fs) e),
  λ h. let never : some (x ∷ es) ≡ some [] = h.0 in cc,
)

module _ (fl : Floats) (zero_float : fl.Float) (names : List (Bytes × ℕ)) (from to : ℤ) where
  open fl use {Float, nan}

  unsaved :
      (name : Bytes) (b : Buffer Float) (d : Option (List Float × ℤ))
      (rest : Option (List (Entry Float)))
      → (elim d [
        | none ↦ none
        | some (values, start) ↦ elim rest [
          | none ↦ none
          | some es ↦ some (
              record { name = name; frequency = pos b.frequency; start = start; values = values }
              ∷ es)
        ]
      ])
        ≡ some []
      → ⊥
  unsaved name b none rest h = let never : none ≡ some [] = h in cc
  unsaved name b (some (values, start)) rest h =
      no_entries
        (record { name = name; frequency = pos b.frequency; start = start; values = values }) rest h

  save_metrics_iff :
      (ns : List (Bytes × ℕ)) (ms : List (List (Buffer Float)))
      → (save_metrics fl zero_float names from to ns ms ≡ some [])
        ↔ All (λ x. IsArchived from to (get_or ms x.1 [])) ns
  unfolding save_metrics
  save_metrics_iff [] ms = (λ e. tt, λ e. refl)
  save_metrics_iff ((name, offset) ∷ others) ms =
      let rest = save_metrics_iff others ms in
      let saved : List (Bytes × ℕ) → Option (List (Entry Float)) =
        λ ns. save_metrics fl zero_float names from to ns ms in
      elim (List-cases (get_or ms offset [])) [
        | inl missing ↦
            (let same : saved ((name, offset) ∷ others) ≡ saved others =
                rw (save_metrics, missing) refl in
              rw same (λ e. (rw missing tt, rest.0 e), λ e. rest.1 e.1))
        | inr (b, older, held) ↦
            (let archived = all_archived_iff from to (b ∷ older) in
              elim (Bool-cases (all_archived (iter_from_to (b ∷ older) from to))) [
                | inl all ↦
                    (let same : saved ((name, offset) ∷ others) ≡ saved others =
                        rw (save_metrics, held, all) refl in
                      rw same (λ e. (rw held (archived.0 all), rest.0 e), λ e. rest.1 e.1))
                | inr some_not ↦ (
                  λ e. absurd (
                      unsaved name b (data_of fl zero_float names from to b older) (saved others)
                        (sym (rw (save_metrics, held, some_not) refl) ∙ e)),
                  λ e. absurd (booleans_differ (sym (archived.1 (rw held at e.0)) ∙ some_not)),
                )
              ])
      ]

  mutual
    unfolding to_checkpoint_file IsArchivedLevel save_children

    to_checkpoint_file_iff :
        (l : Level Float)
        → (to_checkpoint_file fl zero_float names from to l ≡ nothing)
          ↔ IsArchivedLevel names from to l
    to_checkpoint_file_iff (level cs ms) =
        let both =
          level_file_iff (save_metrics fl zero_float names from to names ms)
            (save_children fl zero_float names from to cs) in
        let own = save_metrics_iff names ms in
        let below = save_children_iff cs in
        (λ e. (own.0 (both.0 e).0, below.0 (both.0 e).1), λ h. both.1 (own.1 h.0, below.1 h.1))

    save_children_iff :
        (cs : Children Float)
        → (save_children fl zero_float names from to cs ≡ some no_files)
          ↔ IsArchivedBelow names from to cs
    save_children_iff nil = (λ e. tt, λ e. refl)
    save_children_iff (cons k l cs) =
        let both =
          child_file_iff k (to_checkpoint_file fl zero_float names from to l)
            (save_children fl zero_float names from to cs) in
        let own = to_checkpoint_file_iff l in
        let below = save_children_iff cs in
        (λ e. (own.0 (both.0 e).0, below.0 (both.0 e).1), λ h. both.1 (own.1 h.0, below.1 h.1))

  -- There is no snapshot of a tree exactly where every buffer that overlaps with the span is
  -- archived, for every metric of the store on every level.
  pub to_checkpoint_file-IsArchivedLevel :
      (l : Level Float)
      → (to_checkpoint_file fl zero_float names from to l ≡ nothing)
        ↔ IsArchivedLevel names from to l
  to_checkpoint_file-IsArchivedLevel l = to_checkpoint_file_iff l
