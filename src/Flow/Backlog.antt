-- ===== src/Flow/Backlog.antt =====
-- What the loop of the flow upload keeps: the backlog is short, and the counters are cleared.
use edge_frame.Prelude.{◌%◌, ◌≤◌, ◌<◌, ◌≡◌, refl, Bool, true, false, String, List, [], ◌∷◌}
use edge_frame.Prelude.{
  ◌∙◌, string_eq, arith, length, length-append, add_int, if_cases, if◌then◌else◌, nat_beq, leb, map,
  ◌==◌,
}
use edge_frame.Flow.{
  Outside, Flow, send_metric, send_message, save_cache, read_file, resend_files, resend_cache,
  resend_failed, after_success, after_failure, save_failed, flush_failed, count_metric, upload_one,
  upload_all,
}

module _ (o : Outside) where
  -- The failed messages in memory number less than ten.
  pub record IsBacklog (s : Flow) : Type 0 where
    pub counted : length s.failed_q ≤ s.continue_failed_cnt
    pub below_ten : s.continue_failed_cnt < 10

  -- What the messages to the server and the files leave alone.
  record SameBacklog (s u : Flow) : Type 0 where
    same_failed : length u.failed_q ≤ length s.failed_q
    same_count : u.continue_failed_cnt ≡ s.continue_failed_cnt

  SameBacklog-trans : {s u v : Flow} → SameBacklog s u → SameBacklog u v → SameBacklog s v
  SameBacklog-trans h k = record {
    same_failed = omega (arith, h.same_failed, k.same_failed);
    same_count = omega (arith, h.same_count, k.same_count);
  }

  send_message-SameBacklog : (m : String) (s : Flow) → SameBacklog s (send_message o m s).1
  unfolding send_message
  send_message-SameBacklog m s =
      if_cases {A = Bool × Flow} (λ r. SameBacklog s r.1) (m == "")
        (λ _. record { same_failed = omega arith; same_count = refl })
        λ _. record { same_failed = omega arith; same_count = refl }

  resend_files-SameBacklog :
      (names : List String) (s : Flow) → SameBacklog s (resend_files o names s)
  unfolding resend_files read_file
  resend_files-SameBacklog [] s = record { same_failed = omega arith; same_count = refl }
  resend_files-SameBacklog (name ∷ names) s =
      let sent = send_message-SameBacklog (read_file o name s) s in
      if_cases (SameBacklog s) (send_message o (read_file o name s) s).0
        (λ _. SameBacklog-trans sent (
          let rest = resend_files-SameBacklog names _ in
          record { same_failed = rest.same_failed; same_count = rest.same_count }))
        λ _. record { same_failed = sent.same_failed; same_count = sent.same_count }

  resend_cache-SameBacklog : (s : Flow) → SameBacklog s (resend_cache o s)
  unfolding resend_cache
  resend_cache-SameBacklog s =
      let rest = resend_files-SameBacklog (map (λ f. f.0) s.files) _ in
      record { same_failed = rest.same_failed; same_count = rest.same_count }

  resend_failed-SameBacklog :
      (ret : Bool) (ms : List String) (s : Flow)
      → (length (resend_failed o ret ms s).1.failed_q ≤ length ms)
        × ((resend_failed o ret ms s).1.continue_failed_cnt ≡ s.continue_failed_cnt)
  unfolding resend_failed
  resend_failed-SameBacklog ret [] s = (omega arith, refl)
  resend_failed-SameBacklog ret (m ∷ ms) s =
      let sent = send_message-SameBacklog m s in
      if_cases {A = Bool × Flow}
        (λ r.
          (length r.1.failed_q ≤ length (m ∷ ms))
          × (r.1.continue_failed_cnt ≡ s.continue_failed_cnt))
        (send_message o m s).0 (λ _. (omega arith, sent.same_count))
        λ _.
          let u = (send_message o m s).1 in
          let rest =
            resend_failed-SameBacklog false ms
              (record u { reupload_success_count = add_int u.reupload_success_count 1 }) in
          (omega (arith, rest.0), omega (arith, rest.1, sent.same_count))

  save_failed-clears :
      (ms : List String) (s : Flow)
      → ((save_failed o ms s).failed_q ≡ [])
        × ((save_failed o ms s).continue_failed_cnt ≡ 0)
        × ((save_failed o ms s).q ≡ s.q)
  unfolding save_failed save_cache
  save_failed-clears [] s = (refl, refl, refl)
  save_failed-clears (m ∷ ms) s = save_failed-clears ms (save_cache o m s)

  -- The tenth failure writes the backlog to files.
  flush_failed-IsBacklog :
      (s : Flow)
      → length s.failed_q ≤ s.continue_failed_cnt
      → IsBacklog (flush_failed o s) × ((flush_failed o s).q ≡ s.q)
  unfolding flush_failed
  flush_failed-IsBacklog s h =
      let (none_left, zero_count, same_q) = save_failed-clears s.failed_q s in
      if_cases {A = Flow} (λ u. IsBacklog u × (u.q ≡ s.q)) (leb 10 s.continue_failed_cnt)
        (λ _. (
          record {
            counted = rw (none_left, zero_count) (omega arith);
            below_ten = omega (arith, zero_count);
          },
          same_q,
        ))
        λ e. (record { counted = h; below_ten = ground arith }, refl)

  send_metric-same :
      (s : Flow)
      → ((send_metric s).q ≡ s.q)
        × ((send_metric s).failed_q ≡ s.failed_q)
        × ((send_metric s).continue_failed_cnt ≡ s.continue_failed_cnt)
  unfolding send_metric
  send_metric-same s =
      if_cases {A = Flow}
        (λ u.
          (u.q ≡ s.q) × (u.failed_q ≡ s.failed_q) × (u.continue_failed_cnt ≡ s.continue_failed_cnt))
        _ (λ _. (refl, refl, refl)) λ _. (refl, refl, refl)

  count_metric-IsBacklog :
      (s : Flow) → IsBacklog s → IsBacklog (count_metric o s) × ((count_metric o s).q ≡ s.q)
  unfolding count_metric
  count_metric-IsBacklog s h =
      let (same_q, same_failed, same_count) = send_metric-same s in
      if_cases {A = Flow} (λ u. IsBacklog u × (u.q ≡ s.q)) (nat_beq (s.metric_upload_freq % 20) 0)
        (λ _. (
          record {
            counted = rw (same_failed, same_count) h.counted;
            below_ten = rw same_count h.below_ten;
          },
          same_q,
        ))
        λ _. (record { counted = h.counted; below_ten = h.below_ten }, refl)

  after_success-SameBacklog : (s : Flow) → SameBacklog s (after_success o s)
  unfolding after_success
  after_success-SameBacklog s =
      let (fewer, same) = resend_failed-SameBacklog true s.failed_q s in
      let resent = resend_cache-SameBacklog (resend_failed o true s.failed_q s).1 in
      if_cases (SameBacklog s) (resend_failed o true s.failed_q s).0
        (λ _. SameBacklog-trans (record { same_failed = fewer; same_count = same }) resent)
        λ _. record { same_failed = fewer; same_count = same }

  -- Either answer of the server keeps the count of failures above the number of failed messages.
  answered-le :
      (m : String) (s : Flow)
      → IsBacklog s
      → length
          (if (send_message o m s).0
            then after_success o (send_message o m s).1
            else after_failure o m (send_message o m s).1).failed_q
        ≤ (if (send_message o m s).0
            then after_success o (send_message o m s).1
            else after_failure o m (send_message o m s).1).continue_failed_cnt
  unfolding after_failure add_int
  answered-le m s h =
      let sent = send_message-SameBacklog m s in
      let u = (send_message o m s).1 in
      let done = after_success-SameBacklog u in
      if_cases {A = Flow} (λ v. length v.failed_q ≤ v.continue_failed_cnt) (send_message o m s).0
        (λ _.
          omega (
            arith, h.counted, sent.same_failed, sent.same_count, done.same_failed, done.same_count,
          ))
        λ _. omega (
          arith,
          h.counted,
          h.below_ten,
          sent.same_failed,
          sent.same_count,
          length-append u.failed_q (m ∷ []),
        )

  upload_one-IsBacklog :
      (m : String) (ms : List String) (s : Flow)
      → IsBacklog s
      → IsBacklog (upload_one o m ms s) × ((upload_one o m ms s).q ≡ ms)
  unfolding upload_one
  upload_one-IsBacklog m ms s h =
      let u = (send_message o m s).1 in
      let v = record (if (send_message o m s).0 then after_success o u else after_failure o m u) {
        q = ms;
      } in
      let flushed = flush_failed-IsBacklog v (answered-le m s h) in
      let counted = count_metric-IsBacklog (flush_failed o v) flushed.0 in
      (counted.0, counted.1 ∙ flushed.1)

  -- Whatever the server answers, the upload of a queue empties it and leaves fewer than ten failed
  -- messages in memory, if there were fewer before.
  pub upload_all-IsBacklog :
      (ms : List String) (s : Flow)
      → s.q ≡ ms
      → IsBacklog s
      → IsBacklog (upload_all o ms s) × ((upload_all o ms s).q ≡ [])
  unfolding upload_all
  upload_all-IsBacklog [] s e h = (h, e)
  upload_all-IsBacklog (m ∷ ms) s e h =
      let (kept, rest) = upload_one-IsBacklog m ms s h in
      upload_all-IsBacklog ms (upload_one o m ms s) rest kept
