-- ===== src/Loader/Usb/Frames.antt =====
-- The frames that a USB loader pushes, the heartbeats that it sends and what it counts.
use edge_frame.Prelude.{
  ℕ, ◌+◌, ◌%◌, ◌^◌, ◌≡◌, ◌<◌, inl, inr, refl, ap, sym, ◌∙◌, not, String, List, [], ◌∷◌, ◌++◌,
  Option, none, some, arith, if◌then◌else◌, ltb, ltb→lt, length, length-append, append-nil,
  append_assoc, length-set, if_cases, Bool-cases, none-ne-some, of_some, add_int,
}
use edge_frame.Metrics.{Metrics, algo_model_monitor, add_metric}
use edge_frame.Metrics.Laws.{reading, IsTable, metrics-readings}
use edge_frame.Loader.Camera.{Resolution, select_resolution}
use edge_frame.Loader.Usb.{
  Usb, Frame, Loading, Read, frame_at, lost, Reopened, waiting, aborted, ready, take_frame, usb_run,
  heartbeat_interval, Attempt, read_first, open_with, with_camera, reopen_round, reopen_camera,
  and_then, resume,
}

abbrev pub frame_key : String
frame_key = "cv_input_frame_count"

-- The frames of these reads: numbered from the count on, and from 1 on again after a read that got no
-- frame, with the times at which they were read.
abbrev pub numbered : String → ℕ → List Read → List Frame
numbered camera_sn n [] = []
numbered camera_sn n (frame_at t ∷ rest) =
    record { camera_time = t; camera_sn = camera_sn; frame_id = n + 1 }
    ∷ numbered camera_sn (n + 1) rest
numbered camera_sn n (lost rounds ∷ rest) = numbered camera_sn 0 rest

-- The times are more than an interval apart.
abbrev pub Spaced : ℕ → List ℕ → Type 0
Spaced a [] = Unit
Spaced a (t ∷ ts) = (a + heartbeat_interval < t) × Spaced t ts

abbrev last_time : ℕ → List ℕ → ℕ
last_time a [] = a
last_time a (t ∷ ts) = last_time t ts

Spaced-snoc :
    (a : ℕ) (ts : List ℕ) (t : ℕ)
    → Spaced a ts
    → last_time a ts + heartbeat_interval < t
    → Spaced a (ts ++ (t ∷ [])) × (last_time a (ts ++ (t ∷ [])) ≡ t)
Spaced-snoc a [] t h k = ((k, tt), refl)
Spaced-snoc a (s ∷ ts) t h k = let (c, e) = Spaced-snoc s ts t h.1 k in ((h.0, c), e)

-- A loader that started with the counter `base`.
record IsRun (base : ℕ) (l : Loading) : Type 0 where
  table : IsTable l.metrics
  counted : reading algo_model_monitor frame_key l.metrics ≡ (base + length l.pushed) % 2 ^ 32
  spaced : Spaced 0 l.heartbeats
  beaten : last_time 0 l.heartbeats ≡ l.last_heartbeat_time

add_metric-IsTable :
    (m : Metrics) → IsTable m → IsTable (add_metric m algo_model_monitor frame_key 1)
unfolding add_metric
add_metric-IsTable m t = length-set m 2 _ ∙ t

count_one : (base n : ℕ) → add_int ((base + n) % 2 ^ 32) 1 ≡ (base + (n + 1)) % 2 ^ 32
unfolding add_int
count_one base n = omega arith

beat_gap :
    (l : Loading) (t : ℕ)
    → last_time 0 l.heartbeats ≡ l.last_heartbeat_time
    → l.last_heartbeat_time + heartbeat_interval < t
    → last_time 0 l.heartbeats + heartbeat_interval < t
beat_gap l t e h = omega arith

-- The last heartbeat is that of the last time kept, whether a new one is due or not.
beat :
    (l : Loading) (t : ℕ)
    → Spaced 0 l.heartbeats
    → last_time 0 l.heartbeats ≡ l.last_heartbeat_time
    → last_time 0 (
        if ltb (l.last_heartbeat_time + heartbeat_interval) t
        then l.heartbeats ++ (t ∷ [])
        else l.heartbeats)
      ≡ (if ltb (l.last_heartbeat_time + heartbeat_interval) t then t else l.last_heartbeat_time)
beat l t s e = elim (Bool-cases (ltb (l.last_heartbeat_time + heartbeat_interval) t)) [
  | inl k ↦ rw k (Spaced-snoc 0 l.heartbeats t s (beat_gap l t e (ltb→lt _ _ k))).1
  | inr k ↦ rw k e
]

take_frame-IsRun :
    (base : ℕ) (camera_sn : String) (t : ℕ) (l : Loading)
    → IsRun base l
    → IsRun base (take_frame camera_sn t l)
unfolding take_frame
take_frame-IsRun base camera_sn t l h =
    let frame : Frame = record {
      camera_time = t;
      camera_sn = camera_sn;
      frame_id = l.usb.frame_id + 1;
    } in
    let count =
      (metrics-readings l.metrics algo_model_monitor algo_model_monitor frame_key frame_key 1
        h.table (omega arith)).0 in
    let due = ltb (l.last_heartbeat_time + heartbeat_interval) t in
    record {
      table = add_metric-IsTable l.metrics h.table;
      counted =
          count
          ∙ rw h.counted (
              omega (arith, count_one base (length l.pushed), length-append l.pushed (frame ∷ [])));
      spaced =
          if_cases (Spaced 0) due
            (λ e. (Spaced-snoc 0 l.heartbeats t h.spaced (beat_gap l t h.beaten (ltb→lt _ _ e))).0)
            (λ _. h.spaced);
      beaten = beat l t h.spaced h.beaten;
    }

abbrev StartsAgain : Reopened → Type 0
StartsAgain (ready v) = v.frame_id ≡ 0
StartsAgain _ = Unit

read_first-StartsAgain : (frame : Option (ℕ × ℕ)) (u : Usb) → StartsAgain (read_first frame u)
unfolding read_first
read_first-StartsAgain none u = tt
read_first-StartsAgain (some (cols, rows)) u = refl

open_with-StartsAgain :
    (a : Attempt) (u : Usb) (o : Option Resolution) → StartsAgain (open_with a u o)
unfolding open_with
open_with-StartsAgain a u none = tt
open_with-StartsAgain a u (some (w, h)) =
    if_cases StartsAgain (not a.opens) (λ _. tt)
      (λ _. read_first-StartsAgain a.first_frame (record u { width = w; height = h }))

with_camera-StartsAgain : (a : Attempt) (u : Usb) (o : Option ℕ) → StartsAgain (with_camera a u o)
unfolding with_camera
with_camera-StartsAgain a u none = tt
with_camera-StartsAgain a u (some id) =
    open_with-StartsAgain a u (select_resolution u.suppered_resolution_vec)

and_then-StartsAgain :
    (x : Reopened) (more : Usb → Reopened)
    → StartsAgain x
    → ((u : Usb) → StartsAgain (more u))
    → StartsAgain (and_then x more)
and_then-StartsAgain (waiting u) more h k = k u
and_then-StartsAgain aborted more h k = tt
and_then-StartsAgain (ready u) more h k = h

reopen_camera-StartsAgain : (rounds : List Attempt) (u : Usb) → StartsAgain (reopen_camera rounds u)
unfolding reopen_camera reopen_round
reopen_camera-StartsAgain [] u = tt
reopen_camera-StartsAgain (a ∷ later) u =
    and_then-StartsAgain (reopen_round a u) (reopen_camera later) (with_camera-StartsAgain a _ _)
      (reopen_camera-StartsAgain later)

resume-case :
    (G : Loading → Type 0) (x : Reopened) (more : Usb → Option Loading) {r : Loading}
    → StartsAgain x
    → resume x more ≡ some r
    → ((u : Usb) → u.frame_id ≡ 0 → more u ≡ some r → G r)
    → G r
resume-case G (waiting u) more h e k = absurd (none-ne-some e)
resume-case G aborted more h e k = absurd (none-ne-some e)
resume-case G (ready u) more h e k = k u h e

usb_run-IsRun :
    (base : ℕ) (camera_sn : String) (reads : List Read) (l : Loading) {r : Loading}
    → IsRun base l
    → usb_run camera_sn reads l ≡ some r
    → IsRun base r
unfolding usb_run
usb_run-IsRun base camera_sn [] l h e = of_some (IsRun base) e h
usb_run-IsRun base camera_sn (frame_at t ∷ rest) l h e =
    usb_run-IsRun base camera_sn rest (take_frame camera_sn t l)
      (take_frame-IsRun base camera_sn t l h) e
usb_run-IsRun base camera_sn (lost rounds ∷ rest) l h e =
    resume-case (IsRun base) (reopen_camera rounds l.usb)
      (λ u. usb_run camera_sn rest (record l { usb = u })) (reopen_camera-StartsAgain rounds l.usb)
      e
      (λ u z q.
        usb_run-IsRun base camera_sn rest (record l { usb = u })
          (record { table = h.table; counted = h.counted; spaced = h.spaced; beaten = h.beaten }) q)

-- What a run pushes.
usb_run-pushed :
    (camera_sn : String) (reads : List Read) (l : Loading) {r : Loading}
    → usb_run camera_sn reads l ≡ some r
    → r.pushed ≡ l.pushed ++ numbered camera_sn l.usb.frame_id reads
unfolding usb_run take_frame
usb_run-pushed camera_sn [] l e =
    of_some (λ r. r.pushed ≡ l.pushed ++ []) e (sym (append-nil l.pushed))
usb_run-pushed camera_sn (frame_at t ∷ rest) l e =
    usb_run-pushed camera_sn rest (take_frame camera_sn t l) e
    ∙ append_assoc l.pushed _ (numbered camera_sn (l.usb.frame_id + 1) rest)
usb_run-pushed camera_sn (lost rounds ∷ rest) l e =
    resume-case (λ r. r.pushed ≡ l.pushed ++ numbered camera_sn 0 rest) (reopen_camera rounds l.usb)
      (λ u. usb_run camera_sn rest (record l { usb = u })) (reopen_camera-StartsAgain rounds l.usb)
      e
      (λ u z q.
        usb_run-pushed camera_sn rest (record l { usb = u }) q
        ∙ ap (λ n. l.pushed ++ numbered camera_sn n rest) z)

-- A run that starts with nothing pushed or sent, and goes on, pushes a frame for each read that got
-- one, in order, with the time of the read; the numbers go up by one from the loader's count, and
-- from 1 on again exactly after a read that got no frame and called `reopenCamera`. Its heartbeats are more than 30
-- seconds apart, and the counter of input frames goes up by one, as an `int`, for each frame pushed.
pub usb_run-frames :
    (camera_sn : String) (reads : List Read) (usb : Usb) (metrics : Metrics) {r : Loading}
    → IsTable metrics
    → reading algo_model_monitor frame_key metrics < 2 ^ 32
    → usb_run camera_sn reads (record {
      usb = usb;
      last_heartbeat_time = 0;
      metrics = metrics;
      pushed = [];
      heartbeats = [];
    })
      ≡ some r
    → (r.pushed ≡ numbered camera_sn usb.frame_id reads)
      × Spaced 0 r.heartbeats
      × (reading algo_model_monitor frame_key r.metrics
          ≡ (reading algo_model_monitor frame_key metrics + length r.pushed) % 2 ^ 32)
usb_run-frames camera_sn reads usb metrics t int e =
    let start : Loading = record {
      usb = usb;
      last_heartbeat_time = 0;
      metrics = metrics;
      pushed = [];
      heartbeats = [];
    } in
    let base = reading algo_model_monitor frame_key metrics in
    let at_start : IsRun base start = record {
      table = t;
      counted = omega arith;
      spaced = tt;
      beaten = refl;
    } in
    let h = usb_run-IsRun base camera_sn reads start at_start e in
    (usb_run-pushed camera_sn reads start e, h.spaced, h.counted)
