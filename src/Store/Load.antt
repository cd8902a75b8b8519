-- ===== src/Store/Load.antt =====
-- `loadFile` of pkg/metricstore/checkpoint.go: the buffers of a snapshot become the heads of the
-- chains of the tree. The frequency of a snapshot is not negative.
use cc_backend.Common.{
  ltb_ℤ→ge, ℕ, pos, pos_part, ltb_ℤ, ◌≤ℤ◌, ◌≡◌, sym, ◌∙◌, Bool, true, false, Option, none, some,
  List, [], ◌∷◌, length, inl, inr, get_or, set, if◌then◌else◌, Bool-cases, Option-cases, All,
}
use cc_backend.Bytes.{Bytes}
use cc_backend.Buffer.{Buffer}
use cc_backend.Level.{Level, level, Children, find_child, set_child, fresh}
use cc_backend.Level.Free.Books.{AllChains, AllChainsChildren}
use cc_backend.Wal.Snapshot.{Entry, CheckpointFile, file, Files, no_files, sub}
use cc_backend.Store.Keep.{All-set, get_or-All, AllChains-find, AllChains-set, AllChains_nils}

module _ {F : Type 0} where
  unfoldable pub buffer_of_entry : Entry F → Buffer F
  buffer_of_entry e = record {
    contents = e.values;
    cap = length e.values;
    frequency = pos_part e.frequency;
    start = e.start;
    archived = true;
    closed = false;
    last_used = pos 0;
  }

  -- `none` is the error of a buffer that starts before the head of its chain.
  unfoldable pub attach : Buffer F → List (Buffer F) → Option (List (Buffer F))
  attach b [] = some (b ∷ [])
  attach b (p ∷ older) = if ltb_ℤ b.start p.start then none else some (b ∷ p ∷ older)

  -- l.children[sel], or else a new level
  abbrev pub child_or_new : ℕ → Option (Level F) → Level F
  child_or_new n none = fresh n
  child_or_new n (some child) = child

-- `offset` is the look-up in m.Metrics and `n` their number. The flag tells of an error.
module _ (offset : Bytes → Option ℕ) (n : ℕ) where
  unfoldable pub load_metrics :
      {F : Type 0} → List (List (Buffer F)) → List (Entry F) → List (List (Buffer F)) × Bool
  load_metrics ms [] = (ms, false)
  load_metrics ms (e ∷ es) = elim (offset e.name) [
    | none ↦ load_metrics ms es
    | some i ↦ elim (attach (buffer_of_entry e) (get_or ms i [])) [
      | none ↦ (ms, true)
      | some c ↦ load_metrics (set ms i c) es
    ]
  ]

  unfoldable mutual
    pub load_file : {F : Type 0} → CheckpointFile F → Level F → Level F × Bool
    load_file (file es fs) (level cs ms) =
        let (ms', failed) = load_metrics ms es in
        let (cs', failed_below) = load_files fs cs in
        if failed then (level cs ms', true) else (level cs' ms', failed_below)

    pub load_files : {F : Type 0} → Files F → Children F → Children F × Bool
    load_files no_files cs = (cs, false)
    load_files (sub k f fs) cs =
        let (child, failed) = load_file f (child_or_new n (find_child k cs)) in
        let rest = load_files fs (set_child k child cs) in
        if failed then (set_child k child cs, true) else rest

  -- No buffer starts before the one behind it.
  abbrev pub StartsOrdered : {F : Type 0} → List (Buffer F) → Type 0
  StartsOrdered [] = Unit {0}
  StartsOrdered (b ∷ []) = Unit {0}
  StartsOrdered (b ∷ p ∷ older) = (p.start ≤ℤ b.start) × StartsOrdered (p ∷ older)

  attach-StartsOrdered :
      {F : Type 0} (b : Buffer F) (c : List (Buffer F)) {c' : List (Buffer F)}
      → StartsOrdered c
      → attach b c ≡ some c'
      → StartsOrdered c'
  unfolding attach
  attach-StartsOrdered b [] {c'} h e = (let same : c' ≡ b ∷ [] = cc in rw same tt)
  attach-StartsOrdered b (p ∷ older) {c'} h e = elim (Bool-cases (ltb_ℤ b.start p.start)) [
    | inl early ↦ absurd (none_some (sym (rw early) ∙ e))
    | inr late ↦
        (let found : some (b ∷ p ∷ older) ≡ some c' = sym (rw late) ∙ e in
          let same : c' ≡ b ∷ p ∷ older = cc in rw same (ltb_ℤ→ge b.start p.start late, h))
  ]
    where
      none_some : none ≡ some c' → ⊥
      none_some q = cc

  load_metrics-StartsOrdered :
      {F : Type 0} (ms : List (List (Buffer F))) (es : List (Entry F))
      → All StartsOrdered ms
      → All StartsOrdered (load_metrics ms es).0
  unfolding load_metrics
  load_metrics-StartsOrdered ms [] h = h
  load_metrics-StartsOrdered ms (e ∷ es) h = elim (Option-cases (offset e.name)) [
    | inl unknown ↦ rw (unknown, load_metrics) (load_metrics-StartsOrdered ms es h)
    | inr (i, known) ↦ elim (Option-cases (attach (buffer_of_entry e) (get_or ms i []))) [
      | inl early ↦ rw (known, early, load_metrics) h
      | inr (c, found) ↦
          rw (known, found, load_metrics)
            (load_metrics-StartsOrdered (set ms i c) es (
              All-set StartsOrdered ms i c h (
                attach-StartsOrdered (buffer_of_entry e) (get_or ms i [])
                  (get_or-All StartsOrdered ms i [] h tt) found)))
    ]
  ]

  child_or_new-AllChains :
      {F : Type 0} (k : Bytes) (cs : Children F)
      → AllChainsChildren StartsOrdered cs
      → AllChains StartsOrdered (child_or_new n (find_child k cs))
  child_or_new-AllChains k cs h = elim (Option-cases (find_child k cs)) [
    | inl missing ↦ rw missing (unfold fresh in (AllChains_nils StartsOrdered tt n, tt))
    | inr (child, found) ↦ rw found (AllChains-find StartsOrdered k cs h found)
  ]

  mutual
    unfolding load_file load_files

    load-AllChains :
        {F : Type 0} (cf : CheckpointFile F) (l : Level F)
        → AllChains StartsOrdered l
        → AllChains StartsOrdered (load_file cf l).0
    load-AllChains (file es fs) (level cs ms) (h, hs) =
        let own = load_metrics-StartsOrdered ms es h in
        elim (Bool-cases (load_metrics ms es).1) [
          | inl failed ↦ rw failed (own, hs)
          | inr loaded ↦ rw loaded (own, load_files-AllChains fs cs hs)
        ]

    load_files-AllChains :
        {F : Type 0} (fs : Files F) (cs : Children F)
        → AllChainsChildren StartsOrdered cs
        → AllChainsChildren StartsOrdered (load_files fs cs).0
    load_files-AllChains no_files cs h = h
    load_files-AllChains (sub k f fs) cs h =
        let child =
          load-AllChains f (child_or_new n (find_child k cs)) (child_or_new-AllChains k cs h) in
        let put =
          AllChains-set StartsOrdered k (load_file f (child_or_new n (find_child k cs))).0 cs h
            child in
        elim (Bool-cases (load_file f (child_or_new n (find_child k cs))).1) [
          | inl failed ↦ rw failed put
          | inr loaded ↦ rw loaded (load_files-AllChains fs _ put)
        ]

  -- `loadFile` never puts a buffer in front of one that starts later: a tree whose chains are in the
  -- order of their starts stays one, where an error ends the loading too.
  pub load_file-StartsOrdered :
      {F : Type 0} (cf : CheckpointFile F) (l : Level F)
      → AllChains StartsOrdered l
      → AllChains StartsOrdered (load_file cf l).0
  load_file-StartsOrdered cf l h = load-AllChains cf l h
