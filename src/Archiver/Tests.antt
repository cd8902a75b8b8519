-- ===== src/Archiver/Tests.antt =====
-- Runs of the worker of internal/archiver/archiveWorker.go.
use cc_backend.Common.{ℕ, ◌+◌, ◌⊎◌, length, false, ◌≡◌, refl, true, false, some, List, [], ◌∷◌, ltb}
use cc_backend.Archiver.{
  Backend, JobEffect, mark_failed, mark_archived, call_hooks, Worker, waiting, busy, exited,
  Archiver, ArchiverStep, adds, sends, receives, finishes, closes, started, take_step, archive_all,
}
use cc_backend.Archiver.Runs.{effects_of, IsBalanced, archive_all-IsBalanced}
use cc_backend.Archiver.Drain.{
  is_forced, is_worker_step, own_steps, work_left, archive_all-work_left, archive_all-pending,
}

-- A job is a number, and the archive has no room for those above 5.
abbrev small : Backend ℕ
small = record {
  fetch_metadata = λ j. true;
  archive_job = λ j. ltb j 6;
  update_footprint = λ j. true;
  update_energy = λ j. true;
  execute = λ j. true;
}

abbrev in_between : List (ArchiverStep ℕ)
in_between = adds 3 ∷ adds 9 ∷ sends 1 ∷ receives ∷ sends 0 ∷ closes ∷ []

abbrev reached : Archiver ℕ
reached = record {
  worker = busy 9;
  queue = 3 ∷ [];
  sending = [];
  pending = 2;
  closed = true;
  cancelled = false;
  effects = [];
  sent = 9 ∷ 3 ∷ [];
  handled = [];
}

reaches : archive_all small in_between started ≡ some reached
unfolding archive_all started cc_backend.Archiver.take_step cc_backend.Archiver.send_job
    cc_backend.Archiver.receive_job cc_backend.Archiver.pick_sender
reaches = refl

archive_all-IsBalanced_example : IsBalanced small reached
archive_all-IsBalanced_example = archive_all-IsBalanced small in_between reaches

-- The worker finishes the first job while another one is triggered, and takes the second.
abbrev going_on : List (ArchiverStep ℕ)
going_on = finishes ∷ adds 4 ∷ receives ∷ []

abbrev later_on : Archiver ℕ
later_on = record {
  worker = busy 3;
  queue = [];
  sending = 4 ∷ [];
  pending = 2;
  closed = true;
  cancelled = false;
  effects = mark_failed 9 ∷ [];
  sent = 9 ∷ 3 ∷ [];
  handled = 9 ∷ [];
}

goes_on : archive_all small going_on reached ≡ some later_on
unfolding archive_all cc_backend.Archiver.take_step cc_backend.Archiver.receive_job
    cc_backend.Archiver.finish_job cc_backend.Archiver.process
goes_on = refl

archive_all-work_left_example :
    (own_steps going_on + work_left later_on ≡ work_left reached)
    × ((later_on.worker ≡ exited)
          × (later_on.queue ≡ [])
          × (later_on.handled ≡ later_on.sent)
          × (later_on.pending ≡ length later_on.sending)
        ⊎ ((s : ArchiverStep ℕ) × (next : Archiver ℕ) × (is_worker_step s ≡ true)
            × (take_step small s later_on ≡ some next)))
unfolding is_forced
archive_all-work_left_example =
    archive_all-work_left small in_between (refl, (refl, (refl, (refl, (refl, (refl, tt))))))
      reaches refl going_on (refl, (refl, (refl, tt))) goes_on

abbrev to_the_end : List (ArchiverStep ℕ)
to_the_end =
    adds 3 ∷ sends 0 ∷ receives ∷ adds 9 ∷ sends 0 ∷ finishes ∷ closes ∷ receives ∷ finishes ∷ []

abbrev finished : Archiver ℕ
finished = record {
  worker = waiting;
  queue = [];
  sending = [];
  pending = 0;
  closed = true;
  cancelled = false;
  effects = mark_archived 3 ∷ call_hooks 3 ∷ mark_failed 9 ∷ [];
  sent = 3 ∷ 9 ∷ [];
  handled = 3 ∷ 9 ∷ [];
}

ends : archive_all small to_the_end started ≡ some finished
unfolding archive_all started cc_backend.Archiver.take_step cc_backend.Archiver.send_job
    cc_backend.Archiver.receive_job cc_backend.Archiver.pick_sender cc_backend.Archiver.finish_job
    cc_backend.Archiver.process
ends = refl

archive_all-pending_example :
    (finished.sending ≡ [])
    × (finished.queue ≡ [])
    × (finished.handled ≡ finished.sent)
    × (finished.effects ≡ effects_of small finished.sent)
archive_all-pending_example = archive_all-pending small to_the_end ends refl
