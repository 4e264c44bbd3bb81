-- ===== src/Storage/Inputs/Resume.antt =====
-- A job from a question to its user on, to the claim after the answer.
use jitforge.Base.{ℕ, String, false, some, leb, ◌≡◌, refl, arith}
use jitforge.Protocol.{running}
use jitforge.Storage.Schema.{Job}
use jitforge.Storage.Claim.{is_queued_stage, start_job, claimable}
use jitforge.Storage.Inputs.{is_unsuspendable, suspend, resume}

-- A job that may wait in its stage, once suspended and then resumed at that stage, can be claimed at a
-- time exactly if that is not before the time of the answer, and the worker that claims it has it
-- running, in the stage and with the number of attempts that it had before.
pub start_job-resume-suspend :
    (j : Job) (asked answered now lease : ℕ) (worker : String)
    → is_unsuspendable j.stage ≡ false
    → let waiting = suspend asked j in
      let queued = resume j.stage answered waiting in
      let taken = start_job worker lease now queued in
      (claimable now queued ≡ leb answered now)
      × (taken.status ≡ running)
      × (taken.worker_id ≡ some worker)
      × (taken.stage ≡ j.stage)
      × (taken.attempts ≡ j.attempts)
unfolding start_job resume suspend claimable
start_job-resume-suspend j asked answered now lease worker h =
    let worked : is_queued_stage j.stage ≡ false = ground arith in
    (ground arith, refl, refl, ground (arith, worked), ground (arith, worked))
