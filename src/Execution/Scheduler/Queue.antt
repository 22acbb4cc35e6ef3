-- ===== src/Execution/Scheduler/Queue.antt =====
-- The lists that the scheduler's operations make of its queue.
use embodi_run.Base.{
  ℕ, ◌+◌, ◌-◌, ◌≤◌, ◌≡◌, refl, true, false, none, some, List, [], ◌∷◌, ◌++◌, arith, length, All,
  All-append,
}
use embodi_run.Execution.Io.{Operation, is_stop, is_read}
use embodi_run.Execution.Scheduler.State.{Request, retained, reads_left}
use embodi_run.Execution.Scheduler.Admit.{take_out, find_request, detach_queued}
use embodi_run.Execution.Scheduler.Steps.{
  count_reads, count_motion, IsMotion, StopFirst, front_stop,
}

pub reads_left-eq-sub : (q : List Request) (n : ℕ) → reads_left q n ≡ n - count_reads q
reads_left-eq-sub [] n = omega arith
reads_left-eq-sub (r ∷ rs) n = ground (arith, reads_left-eq-sub rs n, reads_left-eq-sub rs (n - 1))

pub is_read-is_stop : (op : Operation) → is_stop op ≡ true → is_read op ≡ false
is_read-is_stop op h = ground arith

pub count_reads-retained : (q : List Request) → count_reads (retained q) ≡ 0
count_reads-retained [] = refl
count_reads-retained (r ∷ rs) = ground (arith, count_reads-retained rs)

pub count_motion-retained : (q : List Request) → count_motion (retained q) ≡ 0
count_motion-retained [] = refl
count_motion-retained (r ∷ rs) = ground (arith, count_motion-retained rs)

retained-of-motion : (q : List Request) → All IsMotion q → retained q ≡ []
retained-of-motion [] h = refl
retained-of-motion (r ∷ rs) h = ground (arith, retained-of-motion rs h.1)

pub retained-StopFirst :
    (q : List Request)
    → StopFirst q
    → StopFirst (retained q) × (front_stop (retained q) ≡ front_stop q)
retained-StopFirst [] h = (tt, refl)
retained-StopFirst (r ∷ rs) h = ground (arith, retained-of-motion rs h)

pub count_reads-append :
    (q : List Request) (r : Request)
    → count_reads (q ++ r ∷ []) ≡ count_reads q + count_reads (r ∷ [])
count_reads-append [] r = omega arith
count_reads-append (x ∷ q) r = omega (arith, count_reads-append q r)

pub count_motion-append :
    (q : List Request) (r : Request)
    → count_motion (q ++ r ∷ []) ≡ count_motion q + count_motion (r ∷ [])
count_motion-append [] r = omega arith
count_motion-append (x ∷ q) r = omega (arith, count_motion-append q r)

pub count_motion-le-length : (q : List Request) → count_motion q ≤ length q
count_motion-le-length [] = omega arith
count_motion-le-length (r ∷ rs) = ground (arith, count_motion-le-length rs)

pub append-StopFirst :
    (q : List Request) (r : Request)
    → StopFirst q
    → IsMotion r
    → StopFirst (q ++ r ∷ []) × (front_stop (q ++ r ∷ []) ≡ front_stop q)
append-StopFirst [] r h m = (tt, ground arith)
append-StopFirst (x ∷ q) r h m = (All-append IsMotion q (r ∷ []) h (m, tt), refl)

pub IsMotion-of_no_stop : (q : List Request) → StopFirst q → front_stop q ≡ none → All IsMotion q
IsMotion-of_no_stop [] h n = tt
IsMotion-of_no_stop (r ∷ rs) h n = ground arith

pub All-take_out : (id : ℕ) (q : List Request) → All IsMotion q → All IsMotion (take_out id q)
All-take_out id [] h = tt
All-take_out id (r ∷ rs) h = ground (arith, All-take_out id rs h.1)

pub front_stop-of-motion : (q : List Request) → All IsMotion q → StopFirst q × (front_stop q ≡ none)
front_stop-of-motion [] h = (tt, refl)
front_stop-of-motion (r ∷ rs) h = ground arith

-- Taking out a request that is no stop.
pub take_out_lem :
    (id : ℕ) (q : List Request) (r : Request)
    → find_request id q ≡ some r
    → (count_reads q ≡ count_reads (take_out id q) + count_reads (r ∷ []))
      × (count_motion (take_out id q) ≤ count_motion q)
take_out_lem id [] r f = cc
take_out_lem id (x ∷ q) r f = ground (arith, take_out_lem id q r)

pub take_out-StopFirst :
    (id : ℕ) (q : List Request) (r : Request)
    → StopFirst q
    → find_request id q ≡ some r
    → IsMotion r
    → StopFirst (take_out id q) × (front_stop (take_out id q) ≡ front_stop q)
take_out-StopFirst id [] r h f m = cc
take_out-StopFirst id (x ∷ q) r h f m =
    ground (arith, front_stop-of-motion q h, All-take_out id q h)

pub detach_queued_lem :
    (id : ℕ) (q : List Request)
    → (count_reads (detach_queued id q) ≡ count_reads q)
      × (count_motion (detach_queued id q) ≡ count_motion q)
      × (front_stop (detach_queued id q) ≡ front_stop q)
detach_queued_lem id [] = (refl, refl, refl)
detach_queued_lem id (r ∷ rs) = let (reads, motion, _) = detach_queued_lem id rs in ground arith

All-detach_queued : (id : ℕ) (q : List Request) → All IsMotion q → All IsMotion (detach_queued id q)
All-detach_queued id [] h = tt
All-detach_queued id (r ∷ rs) h = ground (arith, All-detach_queued id rs h.1)

pub detach_queued-StopFirst :
    (id : ℕ) (q : List Request) → StopFirst q → StopFirst (detach_queued id q)
detach_queued-StopFirst id [] h = tt
detach_queued-StopFirst id (r ∷ rs) h = ground (arith, All-detach_queued id rs h)
