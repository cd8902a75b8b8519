-- ===== src/Archiver/Drain.antt =====
-- The shutdown of internal/archiver/archiveWorker.go: what the worker does once the channel is closed,
-- and what a counter of zero means.
use mathlib.Core.Path.{subst}
use cc_backend.Common.{List-cases}
use cc_backend.Common.{
  ℕ, suc, ◌+◌, ◌-◌, ◌*◌, Bool, false, none, inl, inr, ◌⊎◌, if◌then◌else◌, ltb, Bool-cases,
  Option-cases, All, ◌≡◌, refl, sym, ap, ◌∙◌, true, some, List, [], ◌∷◌, ◌++◌, append-nil, length,
  arith,
}
use cc_backend.Archiver.{
  Backend, waiting, busy, exited, Archiver, ArchiverStep, adds, sends, receives, finishes,
  exits_closed, exits_cancelled, closes, cancels, channel_size, pick_sender, send_job, started,
  process, receive_job, finish_job, exit_if, is_drained, take_step, archive_all,
}
use cc_backend.Archiver.Runs.{
  in_work, Worker-cases, effects_of, archive_all-keeps, archive_all-IsBalanced,
}

-- The exit for a context that was cancelled.
unfoldable pub is_forced : {J : Type 0} → ArchiverStep J → Bool
is_forced exits_cancelled = true
is_forced _ = false

-- The steps of the worker when no context is cancelled.
pub is_worker_step : {J : Type 0} → ArchiverStep J → Bool
is_worker_step receives = true
is_worker_step finishes = true
is_worker_step exits_closed = true
is_worker_step _ = false

pub own_steps : {J : Type 0} → List (ArchiverStep J) → ℕ
own_steps [] = 0
own_steps (s ∷ steps) = (if is_worker_step s then 1 else 0) + own_steps steps

-- How many steps the worker still has to do on a closed channel: two for each job in it, one for the
-- job in work, and the exit.
pub work_left : {J : Type 0} → Archiver J → ℕ
work_left st = elim st.worker [
  | waiting ↦ suc (2 * length st.queue)
  | busy j ↦ suc (suc (2 * length st.queue))
  | exited ↦ 0
]

no_length : {A : Type 0} (xs : List A) → length xs ≡ 0 → xs ≡ []
no_length [] e = refl
no_length (x ∷ xs) e = let never : ⊥ = omega (arith, e) in elim never [ ]

module _ {J : Type 0} (backend : Backend J) where
  -- A worker that has exited, not for a context, left nothing in a closed channel.
  abbrev Rests : Archiver J → Type 0
  Rests st = st.worker ≡ exited → (st.closed ≡ true) × (st.queue ≡ [])

  abbrev Counts : ArchiverStep J → Archiver J → Archiver J → Type 0
  Counts s st next =
      Rests next
      × (st.closed ≡ true
          → (next.closed ≡ true)
            × ((if is_worker_step s then 1 else 0) + work_left next ≡ work_left st))

  some_inj : {A : Type 0} {a b : A} → some a ≡ some b → a ≡ b
  some_inj e = cc

  send_job-stays :
      (n : ℕ) (st : Archiver J) {next : Archiver J}
      → send_job backend n st ≡ some next
      → (next.worker ≡ st.worker) × (next.closed ≡ st.closed)
  unfolding send_job
  send_job-stays n st {next} e = elim (Option-cases (pick_sender n st.sending)) [
    | inl missing ↦ (let never : none ≡ some next = sym (rw (send_job, missing)) ∙ e in cc)
    | inr ((j, others), found) ↦
        (let now : some (record st {
          sending = others;
          queue = st.queue ++ j ∷ [];
          sent = st.sent ++ j ∷ [];
        })
              ≡ some next =
            sym (rw (send_job, found)) ∙ e in
          subst (λ x. (x.worker ≡ st.worker) × (x.closed ≡ st.closed)) (some_inj now) (refl, refl))
  ]

  sends-Counts :
      (n : ℕ) (st : Archiver J) {next : Archiver J}
      → take_step backend (sends n) st ≡ some next
      → Rests st
      → Counts (sends n) st next
  unfolding take_step
  sends-Counts n st {next} e h = elim (Bool-cases st.closed) [
    | inl shut ↦ (let never : none ≡ some next = sym (rw (take_step, shut)) ∙ e in cc)
    | inr up ↦ elim (Bool-cases (ltb (length st.queue) channel_size)) [
      | inr full ↦ (let never : none ≡ some next = sym (rw (take_step, up, full)) ∙ e in cc)
      | inl room ↦
          (let (worker, closed) = send_job-stays n st (sym (rw (take_step, up, room)) ∙ e) in
            ((λ gone. let shut = (h (sym worker ∙ gone)).0 in cc), λ shut. cc))
    ]
  ]

  receives-Counts :
      (st : Archiver J) {next : Archiver J}
      → take_step backend receives st ≡ some next
      → Counts receives st next
  unfolding take_step receive_job work_left is_worker_step
  receives-Counts st {next} e = elim (Worker-cases st.worker) [
    | inl free ↦ elim (List-cases st.queue) [
      | inl nothing ↦
          (let never : none ≡ some next = sym (rw (receive_job, free, nothing)) ∙ e in cc)
      | inr (j, js, more) ↦
          (let now : some (record st { worker = busy j; queue = js }) ≡ some next =
              sym (rw (receive_job, free, more)) ∙ e in
            subst (Counts receives st) (some_inj now)
              ((λ gone. cc), λ shut. (shut, rw (free, more) (omega arith))))
    ]
    | inr (inl (j, taken)) ↦
        (let never : none ≡ some next = sym (rw (receive_job, taken)) ∙ e in cc)
    | inr (inr gone) ↦ (let never : none ≡ some next = sym (rw (receive_job, gone)) ∙ e in cc)
  ]

  finishes-Counts :
      (st : Archiver J) {next : Archiver J}
      → take_step backend finishes st ≡ some next
      → Counts finishes st next
  unfolding take_step finish_job work_left is_worker_step
  finishes-Counts st {next} e = elim (Worker-cases st.worker) [
    | inl free ↦ (let never : none ≡ some next = sym (rw (finish_job, free)) ∙ e in cc)
    | inr (inl (j, taken)) ↦
        (let after : Archiver J = record st {
          worker = waiting;
          pending = st.pending - 1;
          effects = st.effects ++ process backend j;
          handled = st.handled ++ j ∷ [];
        } in
          let now : some after ≡ some next = sym (rw (finish_job, taken)) ∙ e in
          subst (Counts finishes st) (some_inj now)
            ((λ gone. cc), λ shut. (shut, rw taken (omega arith))))
    | inr (inr gone) ↦ (let never : none ≡ some next = sym (rw (finish_job, gone)) ∙ e in cc)
  ]

  is_drained-eq :
      (st : Archiver J) → is_drained backend st ≡ true → (st.closed ≡ true) × (st.queue ≡ [])
  unfolding is_drained
  is_drained-eq st e = elim (List-cases st.queue) [
    | inl nothing ↦ (sym (rw (is_drained, nothing)) ∙ e, nothing)
    | inr (j, js, more) ↦ (let never : false ≡ true = sym (rw (is_drained, more)) ∙ e in cc)
  ]

  exits_closed-Counts :
      (st : Archiver J) {next : Archiver J}
      → take_step backend exits_closed st ≡ some next
      → Counts exits_closed st next
  unfolding take_step exit_if work_left is_worker_step
  exits_closed-Counts st {next} e = elim (Worker-cases st.worker) [
    | inl free ↦ elim (Bool-cases (is_drained backend st)) [
      | inr more ↦ (let never : none ≡ some next = sym (rw (exit_if, free, more)) ∙ e in cc)
      | inl drained ↦
          (let (shut, nothing) = is_drained-eq st drained in
            let now : some (record st { worker = exited }) ≡ some next =
              sym (rw (exit_if, free, drained)) ∙ e in
            subst (Counts exits_closed st) (some_inj now)
              ((λ gone. (shut, nothing)), λ s. (shut, rw (free, nothing) refl)))
    ]
    | inr (inl (j, taken)) ↦ (let never : none ≡ some next = sym (rw (exit_if, taken)) ∙ e in cc)
    | inr (inr gone) ↦ (let never : none ≡ some next = sym (rw (exit_if, gone)) ∙ e in cc)
  ]

  closes-Counts :
      (st : Archiver J) {next : Archiver J}
      → take_step backend closes st ≡ some next
      → Rests st
      → Counts closes st next
  unfolding take_step
  closes-Counts st {next} e h = elim (Bool-cases st.closed) [
    | inl shut ↦ (let never : none ≡ some next = sym (rw (take_step, shut)) ∙ e in cc)
    | inr up ↦
        (let now : some (record st { closed = true }) ≡ some next = sym (rw (take_step, up)) ∙ e in
          subst (Counts closes st) (some_inj now) ((λ gone. (refl, (h gone).1)), λ shut. cc))
  ]

  take_step-Counts :
      (s : ArchiverStep J) (st : Archiver J) {next : Archiver J}
      → is_forced s ≡ false
      → take_step backend s st ≡ some next
      → Rests st
      → Counts s st next
  unfolding take_step is_forced is_worker_step work_left
  take_step-Counts (adds j) st calm e h =
      subst (Counts (adds j) st) (some_inj e) (h, λ shut. (shut, omega arith))
  take_step-Counts (sends n) st calm e h = sends-Counts n st e h
  take_step-Counts receives st calm e h = receives-Counts st e
  take_step-Counts finishes st calm e h = finishes-Counts st e
  take_step-Counts exits_closed st calm e h = exits_closed-Counts st e
  take_step-Counts exits_cancelled st calm e h = cc
  take_step-Counts closes st calm e h = closes-Counts st e h
  take_step-Counts cancels st calm e h =
      subst (Counts cancels st) (some_inj e) (h, λ shut. (shut, omega arith))

  archive_all-Rests :
      (steps : List (ArchiverStep J)) (st : Archiver J) {end : Archiver J}
      → All (λ s. is_forced s ≡ false) steps
      → archive_all backend steps st ≡ some end
      → Rests st
      → Rests end
        × (st.closed ≡ true
            → (end.closed ≡ true) × (own_steps steps + work_left end ≡ work_left st))
  unfolding archive_all own_steps
  archive_all-Rests [] st {end} calm e h =
      let same : st ≡ end = some_inj e in
      (
        subst Rests same h,
        λ shut. (
          ap (λ x. x.closed) (sym same) ∙ shut,
          (let same_work = ap work_left (sym same) in omega (arith, same_work)),
        ),
      )
  archive_all-Rests (s ∷ steps) st {end} (calm, more) e h =
      elim (Option-cases (take_step backend s st)) [
        | inl blocked ↦ (let never : none ≡ some end = sym (rw (archive_all, blocked)) ∙ e in cc)
        | inr (next, taken) ↦
            (let (rests, counts) = take_step-Counts s st calm taken h in
              let (ends, later) =
                archive_all-Rests steps next more (sym (rw (archive_all, taken)) ∙ e) rests in
              (
                ends,
                λ shut.
                    (let (shut', now) = counts shut in
                      let (shut_after, after) = later shut' in
                      (shut_after, omega (arith, now, after))),
              ))
      ]

  -- A worker that has not exited can go on.
  go_on :
      (st : Archiver J)
      → st.closed ≡ true
      → (st.worker ≡ exited)
        ⊎ ((s : ArchiverStep J) × (next : Archiver J) × (is_worker_step s ≡ true)
            × (take_step backend s st ≡ some next))
  unfolding take_step receive_job finish_job exit_if is_drained is_worker_step
  go_on st shut = elim (Worker-cases st.worker) [
    | inl free ↦ elim (List-cases st.queue) [
      | inl nothing ↦ inr (
        exits_closed,
        record st { worker = exited },
        refl,
        rw (exit_if, free, is_drained, nothing, shut) refl,
      )
      | inr (j, js, more) ↦ inr (
        receives,
        record st { worker = busy j; queue = js },
        refl,
        rw (receive_job, free, more) refl,
      )
    ]
    | inr (inl (j, taken)) ↦ inr (
      finishes,
      record st {
        worker = waiting;
        pending = st.pending - 1;
        effects = st.effects ++ process backend j;
        handled = st.handled ++ j ∷ [];
      },
      refl,
      rw (finish_job, taken) refl,
    )
    | inr (inr gone) ↦ inl gone
  ]

  -- Where the channel was closed and the worker never exits for a cancelled context, then in every
  -- continuation, whatever the other goroutines do in between, each step of the worker takes one off
  -- the work that was left at the closing: two steps for each job in the channel, one for the job in
  -- work and one for the exit. While the worker has not exited, it can take a further step; when it
  -- has, the channel is empty, every job that was sent is handled, in order, and the counter is that
  -- of the jobs that were never sent.
  pub archive_all-work_left :
      (steps : List (ArchiverStep J)) {st : Archiver J}
      → All (λ s. is_forced s ≡ false) steps
      → archive_all backend steps started ≡ some st
      → st.closed ≡ true
      → (later : List (ArchiverStep J)) {end : Archiver J} → All (λ s. is_forced s ≡ false) later
      → archive_all backend later st ≡ some end
      → (own_steps later + work_left end ≡ work_left st)
        × ((end.worker ≡ exited)
              × (end.queue ≡ [])
              × (end.handled ≡ end.sent)
              × (end.pending ≡ length end.sending)
            ⊎ ((s : ArchiverStep J) × (next : Archiver J) × (is_worker_step s ≡ true)
                × (take_step backend s end ≡ some next)))
  unfolding in_work started
  archive_all-work_left steps {st} calm e shut later {end} calm' e' =
      let (rests, _) = archive_all-Rests steps started calm e (λ gone. cc) in
      let (rests', count) = archive_all-Rests later st calm' e' rests in
      let (counted, ordered, fits, done) =
        archive_all-keeps backend later st e' (archive_all-IsBalanced backend steps e) in
      let (shut', work) = count shut in
      (
        work,
        elim (go_on end shut') [
          | inr more ↦ inr more
          | inl gone ↦
              (let nothing = (rests' gone).1 in
                let history : end.sent ≡ end.handled ++ [] = ordered ∙ rw (gone, nothing) refl in
                let number : end.pending ≡ length end.sending + 0 =
                  counted ∙ rw (gone, nothing) refl in
                inl (
                  gone,
                  nothing,
                  sym (append-nil end.handled) ∙ sym history,
                  omega (arith, number),
                ))
        ],
      )

  -- Where a state is reached whose counter of pending jobs is zero, for which Shutdown waits, no
  -- triggered job waits to be sent, the channel is empty, and each job that was sent was handled, with
  -- the effects of the jobs in the order of the channel.
  pub archive_all-pending :
      (steps : List (ArchiverStep J)) {end : Archiver J}
      → archive_all backend steps started ≡ some end
      → end.pending ≡ 0
      → (end.sending ≡ [])
        × (end.queue ≡ [])
        × (end.handled ≡ end.sent)
        × (end.effects ≡ effects_of backend end.sent)
  unfolding in_work
  archive_all-pending steps {end} e zero_left =
      let (counted, ordered, fits, done) = archive_all-IsBalanced backend steps e in
      let unsent : end.sending ≡ [] = no_length end.sending (omega (arith, counted, zero_left)) in
      let left : end.queue ≡ [] = no_length end.queue (omega (arith, counted, zero_left)) in
      let idle : in_work end.worker ≡ [] =
        no_length (in_work end.worker) (omega (arith, counted, zero_left)) in
      let history : end.sent ≡ end.handled ++ [] = ordered ∙ rw (idle, left) refl in
      let all : end.handled ≡ end.sent = sym (append-nil end.handled) ∙ sym history in
      (unsent, left, all, done ∙ ap (effects_of backend) all)
