-- ===== src/Events/Crowd.antt =====
-- What the monitor reports is sent: from `MonitorProcessor::handle` through the dispatcher to the
-- requests of `MonitorEvent::handler`.
use edge_frame.Prelude.{
  ℕ, suc, ◌+◌, ◌≡◌, ◌<◌, refl, ap, ◌∙◌, String, List, [], ◌∷◌, ◌++◌, some, arith, length, get_elem?,
  map, All, append-nil, append_assoc, lt→ltb,
}
use edge_frame.Platform.{Platform}
use edge_frame.Track.Person.{Raw}
use edge_frame.Track.Matching.{SolverLaw}
use edge_frame.Track.Matching.Cells.{ReidLaw}
use edge_frame.Track.Detect.Visible.{IsInside}
use edge_frame.Monitor.{MonitorEvent, Monitor, WhaleData, handle}
use edge_frame.Monitor.Reports.{IsReport, IsMonitor, handle_total}
use edge_frame.Events.{Scalar, number, monitor_event, et}
use edge_frame.Events.Handlers.{
  Services, World, crowd_from, crowd_payload, monitor_handler, handler, http_post, is_detached,
  dispatch_run,
}

module _ {P : Platform} where
  -- The entries of a crowd, side by side.
  abbrev pub crowd_of : List ℕ → List ℕ → List ℕ → List (List (String × Scalar P))
  crowd_of (x ∷ xs) (y ∷ ys) (id ∷ ids) =
      (("x", number x) ∷ ("y", number y) ∷ ("id", number id) ∷ []) ∷ crowd_of xs ys ids
  crowd_of _ _ _ = []

  module _ (S : Services P) where
    crowd_from-eq :
        (e : MonitorEvent) (xs ys ids : List ℕ) (i : ℕ)
        → ((k : ℕ) → get_elem? e.y_axis (i + k) ≡ get_elem? ys k)
        → ((k : ℕ) → get_elem? e.id (i + k) ≡ get_elem? ids k)
        → length ys ≡ length xs
        → length ids ≡ length xs
        → crowd_from S e i xs ≡ some (crowd_of xs ys ids)
    unfolding crowd_from
    crowd_from-eq e [] [] [] i hy hi ly li = refl
    crowd_from-eq e [] [] (d ∷ ids) i hy hi ly li = absurd (omega arith)
    crowd_from-eq e [] (y ∷ ys) ids i hy hi ly li = absurd (omega arith)
    crowd_from-eq e (x ∷ xs) [] ids i hy hi ly li = absurd (omega arith)
    crowd_from-eq e (x ∷ xs) (y ∷ ys) [] i hy hi ly li = absurd (omega arith)
    crowd_from-eq e (x ∷ xs) (y ∷ ys) (d ∷ ids) i hy hi ly li =
        let at : i ≡ i + 0 = omega arith in
        let here_y : get_elem? e.y_axis i ≡ some y = ap (get_elem? e.y_axis) at ∙ hy 0 in
        let here_id : get_elem? e.id i ≡ some d = ap (get_elem? e.id) at ∙ hi 0 in
        let later = λ (k : ℕ). let q : suc i + k ≡ i + suc k = omega arith in q in
        rw (
          here_y,
          here_id,
          crowd_from-eq e xs ys ids (suc i) (λ k. ap (get_elem? e.y_axis) (later k) ∙ hy (suc k))
              (λ k. ap (get_elem? e.id) (later k) ∙ hi (suc k)) (omega arith) (omega arith),
        )

    -- The request of a report: one entry of the crowd for each of its people.
    abbrev pub request : MonitorEvent → String × String
    request e = (S.monitor_api, crowd_payload S e (crowd_of e.x_axis e.y_axis e.id))

    abbrev after : World → List MonitorEvent → World
    after w es = record w { posted = w.posted ++ map request es }

    monitor_handler-posts :
        (e : MonitorEvent) (w : World)
        → IsReport e
        → monitor_handler S e w ≡ some (after w (e ∷ []))
    unfolding monitor_handler http_post
    monitor_handler-posts e w h =
        let zero_plus = λ (k : ℕ). let q : 0 + k ≡ k = omega arith in q in
        let crowd =
          crowd_from-eq e e.x_axis e.y_axis e.id 0 (λ k. ap (get_elem? e.y_axis) (zero_plus k))
            (λ k. ap (get_elem? e.id) (zero_plus k)) h.as_many_y h.as_many_id in
        let some_y : 0 < length e.y_axis = omega (arith, h.as_many_y, h.some_one) in
        let some_id : 0 < length e.id = omega (arith, h.as_many_id, h.some_one) in
        rw (lt→ltb _ _ h.some_one, lt→ltb _ _ some_y, lt→ltb _ _ some_id, crowd)

    dispatch_run-posts :
        (rate : P.Float) (es : List MonitorEvent) (w : World)
        → All IsReport es
        → dispatch_run S rate (map monitor_event es) w ≡ some (after w es, [])
    unfolding dispatch_run handler is_detached et
    dispatch_run-posts rate [] w h = rw (append-nil w.posted) refl
    dispatch_run-posts rate (e ∷ es) w h =
        rw (monitor_handler-posts e w h.0, dispatch_run-posts rate es (after w (e ∷ [])) h.1)
          (ap (λ l. some (record w { posted = l }, []))
            (append_assoc w.posted (request e ∷ []) (map request es)))

    -- Under the contracts of the solver and of the ReID network, a frame whose body boxes lie in the
    -- image and have pixels goes through a monitor that is between two frames, and the dispatcher's own thread, given the reports in order, posts one request for each, with one
    -- entry of the crowd for each person, and with no read out of range.
    pub handle-posted :
        (n : ℕ)
        → SolverLaw P
        → ReidLaw P n
        → (raw : ℕ → Raw P) (msg : WhaleData P) (m : Monitor P) (rate : P.Float) (w : World)
        → All (IsInside P msg.mat 1) msg.object_boxes
        → IsMonitor P n m
        → (r : Monitor P × List MonitorEvent) × (handle P raw msg m ≡ some r)
          × IsMonitor P n r.0
          × (dispatch_run S rate (map monitor_event r.1) w
              ≡ some (record w { posted = w.posted ++ map request r.1 }, []))
    handle-posted n law reid raw msg m rate w inside h =
        let (r, done, handled) = handle_total P n law reid raw msg m inside h in
        (r, done, handled.again, dispatch_run-posts rate r.1 w handled.sound)
