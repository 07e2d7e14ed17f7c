-- ===== src/Detector/Delivers.antt =====
-- What the detector delivers, counts and reports.
use edge_frame.Prelude.{
  ℕ, ◌+◌, ◌%◌, ◌^◌, ◌≡◌, ◌<◌, inl, inr, refl, ap, sym, ◌∙◌, not, String, List, [], ◌∷◌, ◌++◌, arith,
  length, length-set, add_int, map, select, if_cases, Bool-cases, append-nil, append_assoc,
}
use edge_frame.Platform.{Platform}
use edge_frame.Metrics.{Metrics, algo_model_monitor, add_metric}
use edge_frame.Metrics.Laws.{reading, IsTable, metrics-readings}
use edge_frame.Monitor.{WhaleData}
use edge_frame.Detector.{
  WhaleFrame, Network, Detector, monitor_image, monitor_model, whale_data, push_all, detect_frame,
  detect_frames,
}

abbrev pub frame_count : Metrics → ℕ
frame_count = reading algo_model_monitor "cv_output_frame_count"

abbrev pub detect_count : Metrics → ℕ
detect_count = reading algo_model_monitor "cv_detect_count"

module _ {P : Platform} (N : Network P) where
  -- The frames that have an image, with the boxes found in them.
  abbrev pub found : List (WhaleFrame P) → List (WhaleData P)
  found fs = map (whale_data N) (select (λ f. not (N.is_empty f.image)) fs)

  -- Every unit with more at the end of its queue.
  abbrev pub extend :
      List (WhaleData P) → List (String × List (WhaleData P)) → List (String × List (WhaleData P))
  extend xs = map (λ u. (u.0, u.1 ++ xs))

  push_all-extend :
      (x : WhaleData P) (units : List (String × List (WhaleData P)))
      → push_all N x units ≡ extend (x ∷ []) units
  unfolding push_all
  push_all-extend x [] = refl
  push_all-extend x ((name, pushed) ∷ rest) = rw (push_all-extend x rest)

  extend-append :
      (xs ys : List (WhaleData P)) (units : List (String × List (WhaleData P)))
      → extend ys (extend xs units) ≡ extend (xs ++ ys) units
  extend-append xs ys [] = refl
  extend-append xs ys ((name, pushed) ∷ rest) =
      rw (extend-append xs ys rest, append_assoc pushed xs ys)

  extend-nil : (units : List (String × List (WhaleData P))) → extend [] units ≡ units
  extend-nil [] = refl
  extend-nil ((name, pushed) ∷ rest) = rw (extend-nil rest, append-nil pushed)

  -- The two monitors push events, and leave the units and the metrics alone.
  abbrev Same : Detector P → Detector P → Type 0
  Same d e = (e.next_processor_unit ≡ d.next_processor_unit) × (e.metrics ≡ d.metrics)

  monitor_image-Same : (f : WhaleFrame P) (d : Detector P) → Same d (monitor_image N f d)
  unfolding monitor_image
  monitor_image-Same f d = if_cases (Same d) _ (λ _. (refl, refl)) (λ _. (refl, refl))

  monitors-Same :
      (f : WhaleFrame P) (d : Detector P) → Same d (monitor_model N f (monitor_image N f d))
  unfolding monitor_model
  monitors-Same f d =
      let kept = monitor_image-Same f d in if_cases (Same d) _ (λ _. kept) (λ _. kept)

  detect_frame-units :
      (f : WhaleFrame P) (d : Detector P)
      → (detect_frame N f d).next_processor_unit ≡ extend (found (f ∷ [])) d.next_processor_unit
  unfolding detect_frame
  detect_frame-units f d = elim (Bool-cases (N.is_empty f.image)) [
    | inl e ↦ rw e (sym (extend-nil d.next_processor_unit))
    | inr e ↦ rw e (
        push_all-extend (whale_data N f) _
        ∙ ap (extend (whale_data N f ∷ [])) (monitors-Same f _).0)
  ]

  -- The two counters, from where they started.
  record Counted (base_f base_d frames detections : ℕ) (m : Metrics) : Type 0 where
    table : IsTable m
    frames_counted : frame_count m ≡ (base_f + frames) % 2 ^ 32
    detections_counted : detect_count m ≡ (base_d + detections) % 2 ^ 32

  add_metric-IsTable :
      (m : Metrics) (key : String) (v : ℕ)
      → IsTable m
      → IsTable (add_metric m algo_model_monitor key v)
  unfolding add_metric
  add_metric-IsTable m key v t = length-set m 2 _ ∙ t

  one_more : (base n : ℕ) → add_int ((base + n) % 2 ^ 32) 1 ≡ (base + (n + 1)) % 2 ^ 32
  unfolding add_int
  one_more base n = omega arith

  module _ (bf bd n k : ℕ) (m : Metrics) where
    count_frame :
        Counted bf bd n k m
        → Counted bf bd (n + 1) k (add_metric m algo_model_monitor "cv_output_frame_count" 1)
    count_frame h =
        let key : String = "cv_output_frame_count" in
        let a = algo_model_monitor in
        record {
          table = add_metric-IsTable m key 1 h.table;
          frames_counted =
              (metrics-readings m a a key "cv_output_frame_count" 1 h.table (omega arith)).0
              ∙ ap (λ c. add_int c 1) h.frames_counted
              ∙ one_more bf n;
          detections_counted =
              (metrics-readings m a a key "cv_detect_count" 1 h.table (omega arith)).0
              ∙ h.detections_counted;
        }

    count_detection :
        Counted bf bd n k m
        → Counted bf bd n (k + 1) (add_metric m algo_model_monitor "cv_detect_count" 1)
    count_detection h =
        let key : String = "cv_detect_count" in
        let a = algo_model_monitor in
        record {
          table = add_metric-IsTable m key 1 h.table;
          frames_counted =
              (metrics-readings m a a key "cv_output_frame_count" 1 h.table (omega arith)).0
              ∙ h.frames_counted;
          detections_counted =
              (metrics-readings m a a key "cv_detect_count" 1 h.table (omega arith)).0
              ∙ ap (λ c. add_int c 1) h.detections_counted
              ∙ one_more bd k;
        }

    count_cost :
        (v : ℕ)
        → Counted bf bd n k m
        → Counted bf bd n k (add_metric m algo_model_monitor "cv_detect_cost" v)
    count_cost v h =
        let key : String = "cv_detect_cost" in
        let a = algo_model_monitor in
        record {
          table = add_metric-IsTable m key v h.table;
          frames_counted =
              (metrics-readings m a a key "cv_output_frame_count" v h.table (omega arith)).0
              ∙ h.frames_counted;
          detections_counted =
              (metrics-readings m a a key "cv_detect_count" v h.table (omega arith)).0
              ∙ h.detections_counted;
        }

  detect_frame-Counted :
      (bf bd n k : ℕ) (f : WhaleFrame P) (d : Detector P)
      → Counted bf bd n k d.metrics
      → Counted bf bd (n + 1) (k + length (found (f ∷ []))) (detect_frame N f d).metrics
  unfolding detect_frame
  detect_frame-Counted bf bd n k f d h =
      let first = count_frame bf bd n k d.metrics h in
      elim (Bool-cases (N.is_empty f.image)) [
        | inl e ↦ let none_more : k + 0 ≡ k = omega arith in rw (e, none_more) first
        | inr e ↦
            rw (e, (monitors-Same f _).1)
              (count_cost bf bd (n + 1) (k + 1) _ _ (count_detection bf bd (n + 1) k _ first))
      ]

  length-found :
      (f : WhaleFrame P) (fs : List (WhaleFrame P))
      → length (found (f ∷ fs)) ≡ length (found (f ∷ [])) + length (found fs)
  length-found f fs = elim (Bool-cases (N.is_empty f.image)) [
    | inl e ↦ rw e (omega arith)
    | inr e ↦ rw e (omega arith)
  ]

  found-cons :
      (f : WhaleFrame P) (fs : List (WhaleFrame P)) → found (f ∷ []) ++ found fs ≡ found (f ∷ fs)
  found-cons f fs = elim (Bool-cases (N.is_empty f.image)) [ inl e ↦ rw e refl | inr e ↦ rw e refl ]

  detect_frames-units :
      (fs : List (WhaleFrame P)) (d : Detector P)
      → (detect_frames N fs d).next_processor_unit ≡ extend (found fs) d.next_processor_unit
  unfolding detect_frames
  detect_frames-units [] d = sym (extend-nil d.next_processor_unit)
  detect_frames-units (f ∷ fs) d =
      detect_frames-units fs (detect_frame N f d)
      ∙ ap (extend (found fs)) (detect_frame-units f d)
      ∙ extend-append (found (f ∷ [])) (found fs) d.next_processor_unit
      ∙ ap (λ xs. extend xs d.next_processor_unit) (found-cons f fs)

  -- The counts may be given by equal numbers.
  Counted-shift :
      {bf bd n k n2 k2 : ℕ} {m : Metrics}
      → n ≡ n2
      → k ≡ k2
      → Counted bf bd n k m
      → Counted bf bd n2 k2 m
  Counted-shift {bf} {bd} en ek h = record {
    table = h.table;
    frames_counted = h.frames_counted ∙ ap (λ x. (bf + x) % 2 ^ 32) en;
    detections_counted = h.detections_counted ∙ ap (λ x. (bd + x) % 2 ^ 32) ek;
  }

  detect_frames-Counted :
      (fs : List (WhaleFrame P)) (d : Detector P) (bf bd n k : ℕ)
      → Counted bf bd n k d.metrics
      → Counted bf bd (n + length fs) (k + length (found fs)) (detect_frames N fs d).metrics
  unfolding detect_frames
  detect_frames-Counted [] d bf bd n k h = Counted-shift (omega arith) (omega arith) h
  detect_frames-Counted (f ∷ fs) d bf bd n k h =
      Counted-shift (omega arith) (omega (arith, length-found f fs)) (
        detect_frames-Counted fs (detect_frame N f d) bf bd (n + 1) (k + length (found (f ∷ [])))
          (detect_frame-Counted bf bd n k f d h))

  -- To each processor of the chosen features, the detector pushes every frame that has an image, in
  -- order, with the boxes that the network found in it; from counters that fit an `int` in a table of
  -- all actions, the counters go up, as `int`s, by the number of frames and by the number of those
  -- with an image.
  pub detect_frames-delivers :
      (fs : List (WhaleFrame P)) (d : Detector P)
      → IsTable d.metrics
      → frame_count d.metrics < 2 ^ 32
      → detect_count d.metrics < 2 ^ 32
      → ((detect_frames N fs d).next_processor_unit ≡ extend (found fs) d.next_processor_unit)
        × (frame_count (detect_frames N fs d).metrics
            ≡ (frame_count d.metrics + length fs) % 2 ^ 32)
        × (detect_count (detect_frames N fs d).metrics
            ≡ (detect_count d.metrics + length (found fs)) % 2 ^ 32)
  detect_frames-delivers fs d t hf hd =
      let bf = frame_count d.metrics in
      let bd = detect_count d.metrics in
      let start : Counted bf bd 0 0 d.metrics = record {
        table = t;
        frames_counted = omega arith;
        detections_counted = omega arith;
      } in
      let all =
        Counted-shift {n2 = length fs} {k2 = length (found fs)} (omega arith) (omega arith)
          (detect_frames-Counted fs d bf bd 0 0 start) in
      (detect_frames-units fs d, all.frames_counted, all.detections_counted)
