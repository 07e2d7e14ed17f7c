-- ===== src/Monitor/Reports.antt =====
-- A frame of the monitor goes through, and reports come at the interval that was set.
use edge_frame.Prelude.{
  ◌⊎◌, ℕ, suc, ◌+◌, ◌%◌, ◌^◌, ◌<◌, ◌≡◌, refl, ◌∙◌, true, false, String, List, [], ◌∷◌, ◌++◌, inl,
  inr,
}
use edge_frame.Prelude.{
  arith, ap, Option, some, nat_beq, ltb, length, map, select, All, add_int, if_cases, All-implies,
}
use edge_frame.Prelude.{add_int-eq}
use native.Mathlib.Nat.{mod-eq_of_lt, mod_self}
use native.Mathlib.Decide.{dec_lt}
use edge_frame.Platform.{Platform}
use edge_frame.Track.Person.{PersonObject, Raw}
use edge_frame.Track.Detect.{cvt_det_to_ped}
use edge_frame.Track.Detect.Bodies.{IsNew, cvt_det_to_ped-IsNew}
use edge_frame.Track.Update.{all_unmatched}
use edge_frame.Track.Matching.{SolverLaw}
use edge_frame.Track.Matching.Cells.{ReidLaw, HasDim, IsReady, IsVisible}
use edge_frame.Track.Detect.Visible.{IsInside, cvt_det_to_ped-IsVisible}
use edge_frame.Track.Total.Frame.{update_total}
use edge_frame.Monitor.{
  MonitorEvent, Monitor, WhaleData, is_reported, x_ground, y_ground, monitor, report_if_due, handle,
}

module _ {A B : Type 0} (f : A → B) where
  length-map : (xs : List A) → length (map f xs) ≡ length xs
  length-map [] = refl
  length-map (x ∷ xs) = ap suc (length-map xs)

nil_of_length {ℓ} : {A : Type ℓ} (xs : List A) → length xs ≡ 0 → xs ≡ []
nil_of_length [] h = refl
nil_of_length (x ∷ xs) h = absurd (omega arith)

-- A report has as many abscissas as ordinates and identities, and at least one.
pub record IsReport (e : MonitorEvent) : Type 0 where
  pub as_many_y : length e.y_axis ≡ length e.x_axis
  pub as_many_id : length e.id ≡ length e.x_axis
  pub some_one : 0 < length e.x_axis

module _ (P : Platform) (n : ℕ) where
  -- Between two frames: nothing is left to report, the count is below the interval, and the
  -- features of the tracker have the network's length.
  pub record IsMonitor (m : Monitor P) : Type 0 where
    pub no_x : m.x ≡ []
    pub no_y : m.y ≡ []
    pub no_id : m.id ≡ []
    pub below : m.cur_interval_cnt < m.monitor_interval
    pub fits_int : m.monitor_interval < 2 ^ 31
    pub tracked_dim : All (HasDim P n) m.tracker.tracked
    pub expired_dim : All (HasDim P n) m.tracker.expired

  -- The detections of the monitor are what `Update` expects.
  IsNew-all_unmatched : (ds : List (PersonObject P)) → All IsNew ds → all_unmatched P ds ≡ true
  unfolding all_unmatched
  IsNew-all_unmatched [] h = refl
  IsNew-all_unmatched (d ∷ ds) h = rw ((h.0).is_unmatched, IsNew-all_unmatched ds h.1)

  IsNew-IsReady :
      (frame : P.Mat) (d : PersonObject P) → IsNew d × IsVisible P frame d → IsReady P n frame d
  IsNew-IsReady frame d (h, v) = (rw h.no_messages tt, inl (rw h.no_feature), v)

  All-both :
      (Q R : PersonObject P → Type 0) (ds : List (PersonObject P))
      → All Q ds
      → All R ds
      → All (λ d. Q d × R d) ds
  All-both Q R [] h k = tt
  All-both Q R (d ∷ ds) h k = ((h.0, k.0), All-both Q R ds h.1 k.1)

  monitor-IsReport :
      (camera_sn : String) (camera_time : ℕ) (ps : List (PersonObject P)) (m : Monitor P)
      → m.x ≡ []
      → m.y ≡ []
      → m.id ≡ []
      → ((monitor P camera_sn camera_time ps m).0.x ≡ [])
        × ((monitor P camera_sn camera_time ps m).0.y ≡ [])
        × ((monitor P camera_sn camera_time ps m).0.id ≡ [])
        × All IsReport (monitor P camera_sn camera_time ps m).1
  unfolding monitor
  monitor-IsReport camera_sn camera_time ps m ex ey ei =
      if_cases {A = Monitor P × List MonitorEvent}
        (λ r. (r.0.x ≡ []) × (r.0.y ≡ []) × (r.0.id ≡ []) × All IsReport r.1)
        (ltb 0 (length (m.x ++ map (x_ground P) seen)))
        (λ q. (
          refl,
          refl,
          refl,
          (
            record {
              as_many_y = omega (arith, sizes);
              as_many_id = omega (arith, sizes);
              some_one = ground arith;
            },
            tt,
          ),
        ))
        λ q.
          let nobody : length seen ≡ 0 = ground (arith, sizes) in
          (
            nil_of_length _ (omega (arith, sizes, nobody)),
            nil_of_length _ (omega (arith, sizes, nobody)),
            nil_of_length _ (omega (arith, sizes, nobody)),
            tt,
          )
    where
      seen : List (PersonObject P)
      seen = select (is_reported P) ps

      -- With nothing left over, each list is as long as the people seen.
      extended :
          (old : List ℕ) (f : PersonObject P → ℕ)
          → old ≡ []
          → length (old ++ map f seen) ≡ length seen
      extended old f e = ap (λ l. length (l ++ map f seen)) e ∙ length-map f seen

      sizes :
          (length (m.x ++ map (x_ground P) seen) ≡ length seen)
          × (length (m.y ++ map (y_ground P) seen) ≡ length seen)
          × (length (m.id ++ map (λ p. p.id) seen) ≡ length seen)
      sizes = (extended m.x _ ex, extended m.y _ ey, extended m.id _ ei)

  monitor-same :
      (camera_sn : String) (camera_time : ℕ) (ps : List (PersonObject P)) (m : Monitor P)
      → ((monitor P camera_sn camera_time ps m).0.tracker ≡ m.tracker)
        × ((monitor P camera_sn camera_time ps m).0.monitor_interval ≡ m.monitor_interval)
  unfolding monitor
  monitor-same camera_sn camera_time ps m =
      if_cases {A = Monitor P × List MonitorEvent}
        (λ r. (r.0.tracker ≡ m.tracker) × (r.0.monitor_interval ≡ m.monitor_interval)) _
        (λ _. (refl, refl)) λ _. (refl, refl)

  -- What a frame leaves: a monitor between frames, and sound reports, none before the interval.
  pub record IsHandled (m : Monitor P) (r : Monitor P × List MonitorEvent) : Type 0 where
    pub again : IsMonitor r.0
    pub sound : All IsReport r.1
    pub on_time : (r.1 ≡ []) ⊎ (m.cur_interval_cnt + 1 ≡ m.monitor_interval)

  report_if_due_total :
      (msg : WhaleData P) (m : Monitor P)
      → IsMonitor m
      → (r : Monitor P × List MonitorEvent) × (report_if_due P msg m ≡ some r) × IsHandled m r
  unfolding report_if_due
  report_if_due_total msg m h =
      if_cases {A = Option (Monitor P × List MonitorEvent)} Good (nat_beq m.monitor_interval 0)
        (λ q. absurd (ground (arith, h.below)))
        λ _.
          if_cases {A = Option (Monitor P × List MonitorEvent)} Good
            (nat_beq (add_int m.cur_interval_cnt 1 % m.monitor_interval) 0)
            (λ q. (
              _,
              refl,
              record {
                again = record {
                  no_x = reported.0;
                  no_y = reported.1;
                  no_id = reported.2;
                  below = rw same.1 (omega (arith, h.below));
                  fits_int = rw same.1 h.fits_int;
                  tracked_dim = rw same.0 h.tracked_dim;
                  expired_dim = rw same.0 h.expired_dim;
                };
                sound = reported.3;
                on_time = inr (now q);
              },
            ))
            λ q. (
              _,
              refl,
              record {
                again = record {
                  no_x = h.no_x;
                  no_y = h.no_y;
                  no_id = h.no_id;
                  below = due q;
                  fits_int = h.fits_int;
                  tracked_dim = h.tracked_dim;
                  expired_dim = h.expired_dim;
                };
                sound = tt;
                on_time = inl refl;
              },
            )
    where
      Good : Option (Monitor P × List MonitorEvent) → Type 0
      Good o = (r : Monitor P × List MonitorEvent) × (o ≡ some r) × IsHandled m r

      counted : Monitor P
      counted = record m { cur_interval_cnt = add_int m.cur_interval_cnt 1 }

      cnt-eq : add_int m.cur_interval_cnt 1 ≡ m.cur_interval_cnt + 1
      cnt-eq = add_int-eq m.cur_interval_cnt 1 (omega (arith, h.below, h.fits_int))

      now :
          nat_beq (add_int m.cur_interval_cnt 1 % m.monitor_interval) 0 ≡ true
          → m.cur_interval_cnt + 1 ≡ m.monitor_interval
      now q = elim (dec_lt (m.cur_interval_cnt + 1) m.monitor_interval) [
        | yes early ↦ absurd (ground (arith, cnt-eq, mod-eq_of_lt early, (rw cnt-eq at q)))
        | no k ↦ omega (arith, h.below)
      ]

      due :
          nat_beq (add_int m.cur_interval_cnt 1 % m.monitor_interval) 0 ≡ false
          → add_int m.cur_interval_cnt 1 < m.monitor_interval
      due q = elim (dec_lt (add_int m.cur_interval_cnt 1) m.monitor_interval) [
        | yes k ↦ k
        | no k ↦
            let full : add_int m.cur_interval_cnt 1 ≡ m.monitor_interval =
              omega (arith, cnt-eq, h.below) in
            absurd (ground (arith, mod_self m.monitor_interval, (rw full at q)))
      ]

      same :
          ((monitor P msg.camera_sn msg.camera_time m.tracker.tracked counted).0.tracker
            ≡ m.tracker)
          × ((monitor P msg.camera_sn msg.camera_time m.tracker.tracked counted).0.monitor_interval
              ≡ m.monitor_interval)
      same = monitor-same msg.camera_sn msg.camera_time m.tracker.tracked counted

      reported :
          ((monitor P msg.camera_sn msg.camera_time m.tracker.tracked counted).0.x ≡ [])
          × ((monitor P msg.camera_sn msg.camera_time m.tracker.tracked counted).0.y ≡ [])
          × ((monitor P msg.camera_sn msg.camera_time m.tracker.tracked counted).0.id ≡ [])
          × All IsReport (monitor P msg.camera_sn msg.camera_time m.tracker.tracked counted).1
      reported =
          monitor-IsReport msg.camera_sn msg.camera_time m.tracker.tracked counted h.no_x h.no_y
            h.no_id

  -- Under the contracts of the solver and of the ReID network, a monitor between frames handles the
  -- next frame, if its body boxes lie in the image and have pixels, and is again between frames; each
  -- report names as many ordinates and identities as abscissas and at least one person, and none comes
  -- before the interval is full.
  pub handle_total :
      SolverLaw P
      → ReidLaw P n
      → (raw : ℕ → Raw P) (msg : WhaleData P) (m : Monitor P)
      → All (IsInside P msg.mat 1) msg.object_boxes
      → IsMonitor m
      → (r : Monitor P × List MonitorEvent) × (handle P raw msg m ≡ some r) × IsHandled m r
  unfolding handle
  handle_total law reid_law raw msg m inside h =
      let dets = cvt_det_to_ped P raw 2 1 msg.camera_time msg.frame_id msg.object_boxes [] in
      let new =
        (cvt_det_to_ped-IsNew P raw 2 1 msg.camera_time msg.frame_id msg.object_boxes [] tt).1 in
      let visible =
        cvt_det_to_ped-IsVisible P msg.mat raw 2 1 msg.camera_time msg.frame_id msg.object_boxes []
          inside tt in
      let (u, run, tracked, expired) =
        update_total P n law reid_law m.tracker m.env msg.mat dets msg.camera_time msg.frame_id
          h.tracked_dim h.expired_dim
          (All-implies _ _ (IsNew-IsReady msg.mat) dets
            (All-both IsNew (IsVisible P msg.mat) dets new visible))
          (IsNew-all_unmatched dets new) in
      let (r, done, handled) =
        report_if_due_total msg (record m { tracker = u.tracker; env = u.env })
          (record {
            no_x = h.no_x;
            no_y = h.no_y;
            no_id = h.no_id;
            below = h.below;
            fits_int = h.fits_int;
            tracked_dim = tracked;
            expired_dim = expired;
          }) in
      (
        r,
        rw run done,
        record { again = handled.again; sound = handled.sound; on_time = handled.on_time },
      )
