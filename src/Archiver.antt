-- ===== src/Archiver.antt =====
-- internal/archiver/archiveWorker.go: the worker that archives the jobs that stopped, with the
-- channel, the counter of pending jobs and the shutdown, as steps that the goroutines take in any
-- order. What the repository and ArchiveJob answer for a job are parameters.
pub mod Runs
pub mod Drain
mod Tests
use cc_backend.Common.{
  ℕ, zero, suc, ◌+◌, ◌-◌, ◌*◌, ◌/◌, ◌%◌, ◌^◌, ◌≤◌, ◌<◌, ℤ, pos, negsuc, sub_ℕ, pos_part, neg_part,
  ltb_ℤ, leb_ℤ, ◌≤ℤ◌, ◌<ℤ◌, ◌+ℤ◌, ◌-ℤ◌, ◌≡◌, refl, sym, ap, ◌∙◌, Bool, true, false, not, ◌&&◌, ◌||◌,
  Option, none, some, List, [], ◌∷◌, ◌++◌, map, append-nil, append_assoc, ltb, leb, ◌==◌, length,
  get_elem?, ◌⊎◌, inl, inr, ◌↔◌, ◌≢◌, get_or, set, replicate, take, drop, if◌then◌else◌, arith,
  int_laws, Bool-cases, Option-cases, length-append, length-replicate, length-set, All, All-append,
  le→leb, gt→leb, lt→ltb, ge→ltb, ltb→lt, leb→le, ==_iff,
}
use cc_backend.Common.{Result, ok, err, ◌>>=◌, or_error, bind-eq-ok, guard-eq-ok, Result-cases}
use cc_backend.Bytes.{Bytes, key_eq, key_eq_iff, key_eq_refl}
use cc_backend.Maps.{
  Map, find_key, set_key, IsIn, IsIn-append, IsIn-last, All-map, AllKeys, find_key-All, set_key-All,
}

-- Whether the calls of the worker for a job go well.
pub record Backend (J : Type 0) : Type 0 where
  pub fetch_metadata : J → Bool
  pub archive_job : J → Bool
  pub update_footprint : J → Bool
  pub update_energy : J → Bool
  pub execute : J → Bool

-- UpdateMonitoringStatus with the status of a failure, MarkArchived that was executed, and
-- CallJobStopHooks.
pub data JobEffect (J : Type 0) : Type 0 where
  mark_failed : J → JobEffect J
  mark_archived : J → JobEffect J
  call_hooks : J → JobEffect J

pub data Worker (J : Type 0) : Type 0 where
  waiting : Worker J
  busy : J → Worker J
  exited : Worker J

-- `sending` has the jobs that a TriggerArchiving has counted and not sent yet, `queue` those in the
-- channel. The fields `sent` and `handled` are the history: what went into the channel, and what the
-- worker is done with.
pub record Archiver (J : Type 0) : Type 0 where
  pub worker : Worker J
  pub queue : List J
  pub sending : List J
  pub pending : ℕ
  pub closed : Bool
  pub cancelled : Bool
  pub effects : List (JobEffect J)
  pub sent : List J
  pub handled : List J

-- `adds` and `sends` are the two parts of TriggerArchiving, the second for the n-th of the jobs that
-- wait for it; `closes` and `cancels` are those of Shutdown, where the context may be cancelled by
-- others too; the rest is the worker.
pub data ArchiverStep (J : Type 0) : Type 0 where
  adds : J → ArchiverStep J
  sends : ℕ → ArchiverStep J
  receives finishes exits_closed exits_cancelled : ArchiverStep J
  closes cancels : ArchiverStep J

abbrev pub channel_size : ℕ
channel_size = 128

module _ {J : Type 0} where
  -- What Start sets up.
  unfoldable pub started : Archiver J
  started = record {
    worker = waiting;
    queue = [];
    sending = [];
    pending = 0;
    closed = false;
    cancelled = false;
    effects = [];
    sent = [];
    handled = [];
  }

  -- The n-th of a list, and the others.
  unfoldable pub pick_sender : ℕ → List J → Option (J × List J)
  pick_sender n [] = none
  pick_sender zero (j ∷ js) = some (j, js)
  pick_sender (suc n) (j ∷ js) = elim (pick_sender n js) [
    | none ↦ none
    | some (k, ks) ↦ some (k, j ∷ ks)
  ]

module _ {J : Type 0} (backend : Backend J) where
  -- The body of the loop of the worker.
  unfoldable pub process : J → List (JobEffect J)
  process j =
      if not (backend.fetch_metadata j)
      then mark_failed j ∷ []
      else if not (backend.archive_job j)
      then mark_failed j ∷ []
      else if not (backend.update_footprint j)
      then []
      else if not (backend.update_energy j)
      then []
      else if not (backend.execute j)
      then []
      else mark_archived j ∷ call_hooks j ∷ []

  unfoldable pub send_job : ℕ → Archiver J → Option (Archiver J)
  send_job n st = elim (pick_sender n st.sending) [
    | none ↦ none
    | some (j, others) ↦
        some (record st { sending = others; queue = st.queue ++ j ∷ []; sent = st.sent ++ j ∷ [] })
  ]

  unfoldable pub receive_job : Archiver J → Option (Archiver J)
  receive_job st = elim st.worker [
    | waiting ↦ elim st.queue [
      | [] ↦ none
      | j ∷ js ↦ some (record st { worker = busy j; queue = js })
    ]
    | busy j ↦ none
    | exited ↦ none
  ]

  -- The end of a round: archivePending.Done on every way through the body.
  unfoldable pub finish_job : Archiver J → Option (Archiver J)
  finish_job st = elim st.worker [
    | waiting ↦ none
    | busy j ↦ some (record st {
      worker = waiting;
      pending = st.pending - 1;
      effects = st.effects ++ process j;
      handled = st.handled ++ j ∷ [];
    })
    | exited ↦ none
  ]

  unfoldable pub exit_if : Bool → Archiver J → Option (Archiver J)
  exit_if may st = elim st.worker [
    | waiting ↦ if may then some (record st { worker = exited }) else none
    | busy j ↦ none
    | exited ↦ none
  ]

  unfoldable pub is_drained : Archiver J → Bool
  is_drained st = elim st.queue [ [] ↦ st.closed | j ∷ js ↦ false ]

  -- A step, or none where it cannot happen: a full channel blocks, a send_job on a closed channel and a
  -- second close panic, and the worker waits in its select.
  unfoldable pub take_step : ArchiverStep J → Archiver J → Option (Archiver J)
  take_step (adds j) st =
      some (record st { pending = suc st.pending; sending = st.sending ++ j ∷ [] })
  take_step (sends n) st =
      if st.closed then none else if ltb (length st.queue) channel_size then send_job n st else none
  take_step receives st = receive_job st
  take_step finishes st = finish_job st
  take_step exits_closed st = exit_if (is_drained st) st
  take_step exits_cancelled st = exit_if st.cancelled st
  take_step closes st = if st.closed then none else some (record st { closed = true })
  take_step cancels st = some (record st { cancelled = true })

  unfoldable pub archive_all : List (ArchiverStep J) → Archiver J → Option (Archiver J)
  archive_all [] st = some st
  archive_all (s ∷ steps) st = elim (take_step s st) [
    | none ↦ none
    | some next ↦ archive_all steps next
  ]
