-- ===== src/Archiver/Runs.antt =====
-- What holds in every state that internal/archiver/archiveWorker.go reaches: the counter of pending
-- jobs, and the order of the jobs.
use mathlib.Core.Path.{subst}
use cc_backend.Common.{List-cases}
use cc_backend.Common.{
  ℕ, zero, suc, ◌+◌, ◌-◌, ◌≤◌, ◌<◌, ◌≡◌, refl, sym, ap, ◌∙◌, Bool, true, false, none, some, List,
  [], ◌∷◌, ◌++◌, append-nil, append_assoc, ltb, length, ◌⊎◌, inl, inr, arith, Bool-cases,
  Option-cases, length-append, ltb→lt,
}
use cc_backend.Archiver.{
  Backend, JobEffect, Worker, waiting, busy, exited, Archiver, ArchiverStep, adds, sends, receives,
  finishes, exits_closed, exits_cancelled, closes, cancels, channel_size, started, pick_sender,
  process, send_job, receive_job, finish_job, exit_if, is_drained, take_step, archive_all,
}

-- The job that the worker is at, if any.
unfoldable pub in_work : {J : Type 0} → Worker J → List J
in_work waiting = []
in_work (busy j) = j ∷ []
in_work exited = []

pub Worker-cases :
    {J : Type 0} (w : Worker J) → (w ≡ waiting) ⊎ ((j : J) × (w ≡ busy j)) ⊎ (w ≡ exited)
Worker-cases waiting = inl refl
Worker-cases (busy j) = inr (inl (j, refl))
Worker-cases exited = inr (inr refl)

module _ {J : Type 0} (backend : Backend J) where
  unfoldable pub effects_of : List J → List (JobEffect J)
  effects_of [] = []
  effects_of (j ∷ js) = process backend j ++ effects_of js

  -- The counter is the number of the jobs that are triggered and not handled; what was sent is what
  -- was handled, the job in work and the channel, in this order; the channel is not over-full, and
  -- the effects are those of the handled jobs, once each.
  abbrev pub IsBalanced : Archiver J → Type 0
  IsBalanced st =
      (st.pending ≡ length st.sending + (length st.queue + length (in_work st.worker)))
      × (st.sent ≡ st.handled ++ (in_work st.worker ++ st.queue))
      × (length st.queue ≤ channel_size)
      × (st.effects ≡ effects_of st.handled)

  length-pick :
      (n : ℕ) (js : List J) {j : J} {others : List J}
      → pick_sender n js ≡ some (j, others)
      → length js ≡ suc (length others)
  unfolding pick_sender
  length-pick n [] e = cc
  length-pick zero (k ∷ ks) {j} {others} e = let same : ks ≡ others = cc in rw same refl
  length-pick (suc n) (k ∷ ks) {j} {others} e = elim (Option-cases (pick_sender n ks)) [
    | inl missing ↦ (let never : none ≡ some (j, others) = sym (rw missing) ∙ e in cc)
    | inr ((l, ls), found) ↦
        (let same : some (l, k ∷ ls) ≡ some (j, others) = sym (rw found) ∙ e in
          let rest : k ∷ ls ≡ others = cc in rw (← rest) (ap suc (length-pick n ks found)))
  ]

  effects_of-append :
      (js : List J) (j : J) → effects_of (js ++ j ∷ []) ≡ effects_of js ++ process backend j
  unfolding effects_of
  effects_of-append [] j = append-nil (process backend j)
  effects_of-append (k ∷ ks) j =
      ap (λ es. process backend k ++ es) (effects_of-append ks j)
      ∙ sym (append_assoc (process backend k) (effects_of ks) (process backend j))

  send_job-IsBalanced :
      (n : ℕ) (st : Archiver J) {next : Archiver J}
      → length st.queue < channel_size
      → send_job backend n st ≡ some next
      → IsBalanced st
      → IsBalanced next
  unfolding send_job
  send_job-IsBalanced n st {next} room e (counted, ordered, fits, done) =
      elim (Option-cases (pick_sender n st.sending)) [
        | inl missing ↦ (let never : none ≡ some next = sym (rw (send_job, missing)) ∙ e in cc)
        | inr ((j, others), found) ↦
            (let now : some (record st {
              sending = others;
              queue = st.queue ++ j ∷ [];
              sent = st.sent ++ j ∷ [];
            })
                  ≡ some next =
                sym (rw (send_job, found)) ∙ e in
              let same : record st {
                sending = others;
                queue = st.queue ++ j ∷ [];
                sent = st.sent ++ j ∷ [];
              }
                  ≡ next =
                cc in
              let fewer : length st.sending ≡ suc (length others) =
                length-pick n st.sending found in
              let longer : length (st.queue ++ j ∷ []) ≡ length st.queue + 1 =
                length-append st.queue (j ∷ []) in
              subst IsBalanced same (
                omega (arith, counted, fewer, longer),
                ap (λ xs. xs ++ j ∷ []) ordered
                    ∙ append_assoc st.handled (in_work st.worker ++ st.queue) (j ∷ [])
                    ∙ ap (λ xs. st.handled ++ xs)
                        (append_assoc (in_work st.worker) st.queue (j ∷ [])),
                omega (arith, room, longer),
                done,
              ))
      ]

  receive_job-IsBalanced :
      (st : Archiver J) {next : Archiver J}
      → receive_job backend st ≡ some next
      → IsBalanced st
      → IsBalanced next
  unfolding receive_job in_work
  receive_job-IsBalanced st {next} e (counted, ordered, fits, done) =
      elim (Worker-cases st.worker) [
        | inl free ↦ elim (List-cases st.queue) [
          | inl nothing ↦
              (let never : none ≡ some next = sym (rw (receive_job, free, nothing)) ∙ e in cc)
          | inr (j, js, more) ↦
              (let now : some (record st { worker = busy j; queue = js }) ≡ some next =
                  sym (rw (receive_job, free, more)) ∙ e in
                let same : record st { worker = busy j; queue = js } ≡ next = cc in
                let before : st.pending ≡ length st.sending + (suc (length js) + 0) =
                  counted ∙ (rw (free, more) refl) in
                let order : st.sent ≡ st.handled ++ j ∷ js = ordered ∙ (rw (free, more) refl) in
                let room : suc (length js) ≤ channel_size = rw more at fits in
                subst IsBalanced same (omega (arith, before), order, omega (arith, room), done))
        ]
        | inr (inl (j, taken)) ↦
            (let never : none ≡ some next = sym (rw (receive_job, taken)) ∙ e in cc)
        | inr (inr gone) ↦ (let never : none ≡ some next = sym (rw (receive_job, gone)) ∙ e in cc)
      ]

  finish_job-IsBalanced :
      (st : Archiver J) {next : Archiver J}
      → finish_job backend st ≡ some next
      → IsBalanced st
      → IsBalanced next
  unfolding finish_job in_work
  finish_job-IsBalanced st {next} e (counted, ordered, fits, done) = elim (Worker-cases st.worker) [
    | inl free ↦ (let never : none ≡ some next = sym (rw (finish_job, free)) ∙ e in cc)
    | inr (inl (j, taken)) ↦
        (let after : Archiver J = record st {
          worker = waiting;
          pending = st.pending - 1;
          effects = st.effects ++ process backend j;
          handled = st.handled ++ j ∷ [];
        } in
          let now : some after ≡ some next = sym (rw (finish_job, taken)) ∙ e in
          let same : after ≡ next = cc in
          let before : st.pending ≡ length st.sending + (length st.queue + 1) =
            counted ∙ (rw taken refl) in
          let order : st.sent ≡ st.handled ++ j ∷ st.queue = ordered ∙ (rw taken refl) in
          subst IsBalanced same (
            omega (arith, before),
            order ∙ sym (append_assoc st.handled (j ∷ []) st.queue),
            fits,
            ap (λ es. es ++ process backend j) done ∙ sym (effects_of-append st.handled j),
          ))
    | inr (inr gone) ↦ (let never : none ≡ some next = sym (rw (finish_job, gone)) ∙ e in cc)
  ]

  exit_if-IsBalanced :
      (may : Bool) (st : Archiver J) {next : Archiver J}
      → exit_if backend may st ≡ some next
      → IsBalanced st
      → IsBalanced next
  unfolding exit_if in_work
  exit_if-IsBalanced false st {next} e h = elim (Worker-cases st.worker) [
    | inl free ↦ (let never : none ≡ some next = sym (rw (exit_if, free)) ∙ e in cc)
    | inr (inl (j, taken)) ↦ (let never : none ≡ some next = sym (rw (exit_if, taken)) ∙ e in cc)
    | inr (inr gone) ↦ (let never : none ≡ some next = sym (rw (exit_if, gone)) ∙ e in cc)
  ]
  exit_if-IsBalanced true st {next} e (counted, ordered, fits, done) =
      elim (Worker-cases st.worker) [
        | inl free ↦
            (let now : some (record st { worker = exited }) ≡ some next =
                sym (rw (exit_if, free)) ∙ e in
              let same : record st { worker = exited } ≡ next = cc in
              subst IsBalanced same
                (counted ∙ (rw free refl), ordered ∙ (rw free refl), fits, done))
        | inr (inl (j, taken)) ↦
            (let never : none ≡ some next = sym (rw (exit_if, taken)) ∙ e in cc)
        | inr (inr gone) ↦ (let never : none ≡ some next = sym (rw (exit_if, gone)) ∙ e in cc)
      ]

  take_step-IsBalanced :
      (s : ArchiverStep J) (st : Archiver J) {next : Archiver J}
      → take_step backend s st ≡ some next
      → IsBalanced st
      → IsBalanced next
  unfolding take_step
  take_step-IsBalanced (adds j) st {next} e (counted, ordered, fits, done) =
      let same : record st { pending = suc st.pending; sending = st.sending ++ j ∷ [] } ≡ next =
        cc in
      let longer : length (st.sending ++ j ∷ []) ≡ length st.sending + 1 =
        length-append st.sending (j ∷ []) in
      subst IsBalanced same (omega (arith, counted, longer), ordered, fits, done)
  take_step-IsBalanced (sends n) st {next} e h = elim (Bool-cases st.closed) [
    | inl shut ↦ (let never : none ≡ some next = sym (rw (take_step, shut)) ∙ e in cc)
    | inr up ↦ elim (Bool-cases (ltb (length st.queue) channel_size)) [
      | inl room ↦
          send_job-IsBalanced n st (ltb→lt (length st.queue) channel_size room)
            (sym (rw (take_step, up, room)) ∙ e) h
      | inr full ↦ (let never : none ≡ some next = sym (rw (take_step, up, full)) ∙ e in cc)
    ]
  ]
  take_step-IsBalanced receives st e h = receive_job-IsBalanced st e h
  take_step-IsBalanced finishes st e h = finish_job-IsBalanced st e h
  take_step-IsBalanced exits_closed st e h = exit_if-IsBalanced (is_drained backend st) st e h
  take_step-IsBalanced exits_cancelled st e h = exit_if-IsBalanced st.cancelled st e h
  take_step-IsBalanced closes st {next} e h = elim (Bool-cases st.closed) [
    | inl shut ↦ (let never : none ≡ some next = sym (rw (take_step, shut)) ∙ e in cc)
    | inr up ↦
        (let now : some (record st { closed = true }) ≡ some next = sym (rw (take_step, up)) ∙ e in
          let same : record st { closed = true } ≡ next = cc in subst IsBalanced same h)
  ]
  take_step-IsBalanced cancels st {next} e h =
      let same : record st { cancelled = true } ≡ next = cc in subst IsBalanced same h

  pub archive_all-keeps :
      (steps : List (ArchiverStep J)) (st : Archiver J) {end : Archiver J}
      → archive_all backend steps st ≡ some end
      → IsBalanced st
      → IsBalanced end
  unfolding archive_all
  archive_all-keeps [] st {end} e h = let same : st ≡ end = cc in subst IsBalanced same h
  archive_all-keeps (s ∷ steps) st {end} e h = elim (Option-cases (take_step backend s st)) [
    | inl blocked ↦ (let never : none ≡ some end = sym (rw (archive_all, blocked)) ∙ e in cc)
    | inr (next, taken) ↦
        archive_all-keeps steps next (sym (rw (archive_all, taken)) ∙ e)
          (take_step-IsBalanced s st taken h)
  ]

  -- In every state that the steps reach from the start, the counter is the number of the jobs that
  -- were triggered and are not handled, and the jobs are handled in the order in which they were
  -- sent, each once, with their effects.
  pub archive_all-IsBalanced :
      (steps : List (ArchiverStep J)) {end : Archiver J}
      → archive_all backend steps started ≡ some end
      → IsBalanced end
  unfolding started in_work effects_of
  archive_all-IsBalanced steps e = archive_all-keeps steps started e (refl, refl, omega arith, refl)
