-- ===== src/Loader/Rtsp.antt =====
-- src/processor/RtspLoaderProcessor.cpp. Whether the stream opens, what it gives, and the clock come
-- from outside, as a list of what happens next. `videoRe` has an empty body.
use edge_frame.Prelude.{
  ℕ, ◌+◌, ◌≡◌, ◌<◌, ◌≤◌, Bool, true, false, String, List, [], ◌∷◌, ◌++◌, Option, none, some, ◌>>=◌,
  if◌then◌else◌, ltb, arith, All, All-append, of_some, >>=-eq-some, Bool-cases, inl, inr,
}
use edge_frame.Metrics.{Metrics, algo_model_monitor, add_metric}
use edge_frame.Loader.Usb.{Frame, heartbeat_interval}

-- The members with the locals of `run`, the metric table, and what was pushed and sent.
pub record Rtsp : Type 0 where
  pub is_ready : Bool
  pub frame_id : ℕ
  pub last_heartbeat_time : ℕ
  pub metrics : Metrics
  pub pushed : List Frame
  pub heartbeats : List ℕ

-- A round of `reopenCamera`: whether the stream opens, and whether it gives a frame.
pub record Reconnect : Type 0 where
  pub opens : Bool
  pub gives_frame : Bool

-- `reopenCamera` over the rounds that come next; `none` where it is not done by then.
unfoldable pub rtsp_reopen : List Reconnect → Rtsp → Option Rtsp
rtsp_reopen [] l = none
rtsp_reopen (r ∷ later) l =
    let again = rtsp_reopen later (record l { is_ready = false }) in
    let read = if r.gives_frame then some (record l { is_ready = true }) else again in
    if r.opens then read else again

-- The loop's body after a frame is read: times are below 2 ^ 63 - 30000.
unfoldable pub rtsp_take : String → ℕ → Rtsp → Rtsp
rtsp_take camera_sn camera_time l =
    let id = l.frame_id + 1 in
    let frame : Frame = record {
      camera_time = camera_time;
      camera_sn = camera_sn;
      frame_id = id;
    } in
    let due = ltb (l.last_heartbeat_time + heartbeat_interval) camera_time in
    record {
      is_ready = true;
      frame_id = id;
      last_heartbeat_time = if due then camera_time else l.last_heartbeat_time;
      metrics = add_metric l.metrics algo_model_monitor "cv_input_frame_count" 1;
      pushed = l.pushed ++ (frame ∷ []);
      heartbeats = if due then l.heartbeats ++ (camera_time ∷ []) else l.heartbeats;
    }

pub data RtspRead : Type 0 where
  got_frame : ℕ → RtspRead
  no_frame : List Reconnect → RtspRead

-- `run` over the reads that come next; a read that fails takes a number, too.
unfoldable pub rtsp_run : String → List RtspRead → Rtsp → Option Rtsp
rtsp_run camera_sn [] l = some l
rtsp_run camera_sn (got_frame t ∷ rest) l = rtsp_run camera_sn rest (rtsp_take camera_sn t l)
rtsp_run camera_sn (no_frame rounds ∷ rest) l =
    rtsp_reopen rounds (record l { frame_id = l.frame_id + 1 }) >>= rtsp_run camera_sn rest

-- The numbers go up from frame to frame, and the last is not above the count.
abbrev Rising : ℕ → List Frame → Type 0
Rising low [] = Unit
Rising low (f ∷ fs) = (low < f.frame_id) × Rising f.frame_id fs

abbrev IsNumbered : Rtsp → Type 0
IsNumbered l = Rising 0 l.pushed × All (λ f. f.frame_id ≤ l.frame_id) l.pushed

Rising-append :
    (low : ℕ) (fs : List Frame) (f : Frame)
    → Rising low fs
    → low < f.frame_id
    → All (λ g. g.frame_id < f.frame_id) fs
    → Rising low (fs ++ (f ∷ []))
Rising-append low [] f h lt all = (lt, tt)
Rising-append low (g ∷ fs) f h lt all = (h.0, Rising-append g.frame_id fs f h.1 all.0 all.1)

All-le :
    (n m : ℕ) (fs : List Frame)
    → n ≤ m
    → All (λ f. f.frame_id ≤ n) fs
    → All (λ f. f.frame_id ≤ m) fs
All-le n m [] h all = tt
All-le n m (f ∷ fs) h all = (omega (arith, all.0), All-le n m fs h all.1)

All-lt : (n : ℕ) (fs : List Frame) → All (λ f. f.frame_id ≤ n) fs → All (λ f. f.frame_id < n + 1) fs
All-lt n [] all = tt
All-lt n (f ∷ fs) all = (omega (arith, all.0), All-lt n fs all.1)

rtsp_take-IsNumbered :
    (sn : String) (t : ℕ) (l : Rtsp) → IsNumbered l → IsNumbered (rtsp_take sn t l)
unfolding rtsp_take
rtsp_take-IsNumbered sn t l h =
    let frame : Frame = record { camera_time = t; camera_sn = sn; frame_id = l.frame_id + 1 } in
    (
      Rising-append 0 l.pushed frame h.0 (omega arith) (All-lt l.frame_id l.pushed h.1),
      All-append (λ f. f.frame_id ≤ l.frame_id + 1) l.pushed (frame ∷ [])
          (All-le l.frame_id (l.frame_id + 1) l.pushed (omega arith) h.1) (omega arith, tt),
    )

rtsp_reopen-IsNumbered :
    (rounds : List Reconnect) (l k : Rtsp)
    → IsNumbered l
    → rtsp_reopen rounds l ≡ some k
    → IsNumbered k
unfolding rtsp_reopen
rtsp_reopen-IsNumbered [] l k h e = absurd (grind (arith, e))
rtsp_reopen-IsNumbered (r ∷ later) l k h e =
    let again = rtsp_reopen-IsNumbered later (record l { is_ready = false }) k h in
    elim (Bool-cases r.opens) [
      | inr a ↦ again (rw a at e)
      | inl a ↦ elim (Bool-cases r.gives_frame) [
        | inr b ↦ again (rw (a, b) at e)
        | inl b ↦ of_some IsNumbered (rw (a, b) at e) h
      ]
    ]

-- Over any run that goes on, the numbers of the frames that are pushed go up.
rtsp_run-IsNumbered :
    (sn : String) (reads : List RtspRead) (l k : Rtsp)
    → IsNumbered l
    → rtsp_run sn reads l ≡ some k
    → IsNumbered k
unfolding rtsp_run
rtsp_run-IsNumbered sn [] l k h e = of_some IsNumbered e h
rtsp_run-IsNumbered sn (got_frame t ∷ rest) l k h e =
    rtsp_run-IsNumbered sn rest (rtsp_take sn t l) k (rtsp_take-IsNumbered sn t l h) e
rtsp_run-IsNumbered sn (no_frame rounds ∷ rest) l k h e =
    let counted : Rtsp = record l { frame_id = l.frame_id + 1 } in
    let (m, em, e1) = >>=-eq-some (rtsp_reopen rounds counted) _ e in
    rtsp_run-IsNumbered sn rest m k
      (rtsp_reopen-IsNumbered rounds counted m
        (h.0, All-le l.frame_id (l.frame_id + 1) l.pushed (omega arith) h.1) em)
      e1
