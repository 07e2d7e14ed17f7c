-- ===== src/Flow.antt =====
-- src/processor/FlowRpcAsynProcessor.cpp: the upload of flow events, with a queue in memory, a queue
-- of messages that failed, and files for what does not fit. The server, the clock and the names of
-- the files are parameters; the worker's loop is taken between two calls of `SendToFlowServer`.
pub mod Backlog
pub mod Outage
pub mod Retry
use edge_frame.Prelude.{ℕ, suc, ◌+◌, ◌%◌, Bool, true, false, ◌||◌, not, String, List, [], ◌∷◌, ◌++◌}
use edge_frame.Prelude.{
  string_eq, none, some, if◌then◌else◌, nat_beq, ltb, leb, length, map, ◌==◌, lookup, insert, erase,
  add_int,
}

-- The server's answer to the n-th post, the n-th reading of the clock, and
-- `std::to_string(getCurrentTime()) + "_request_grpc_flow_failed.dat"` with the completion stamp.
pub record Outside : Type 0 where
  pub post : ℕ → String → Bool
  pub now : ℕ → ℕ
  pub file_name : ℕ → String

-- The members of the processor and the locals of `run`; `files` is the data directory, `delivered`
-- what the server has accepted.
pub record Flow : Type 0 where
  pub q : List String
  pub failed_q : List String
  pub continue_failed_cnt : ℕ
  pub metric_upload_freq : ℕ
  pub rt_upload_failed_count : ℕ
  pub reupload_success_count : ℕ
  pub reupload_retry_count : ℕ
  pub history_reupload_count : ℕ
  pub files : List (String × String)
  pub posts : ℕ
  pub reads : ℕ
  pub delivered : List String

abbrev is_nonzero : ℕ → Bool
is_nonzero n = not (nat_beq n 0)

-- `sendMetric`: the send itself is commented out, the reset is left.
unfoldable pub send_metric : Flow → Flow
send_metric s =
    if is_nonzero s.rt_upload_failed_count
      || is_nonzero s.reupload_success_count
      || is_nonzero s.reupload_retry_count
      || is_nonzero s.history_reupload_count
    then record s {
      rt_upload_failed_count = 0;
      reupload_success_count = 0;
      reupload_retry_count = 0;
      history_reupload_count = 0;
    }
    else s

module _ (o : Outside) where
  -- An empty message counts as sent.
  unfoldable pub send_message : String → Flow → Bool × Flow
  send_message msg s = if msg == "" then (true, s) else (
    o.post s.posts msg,
    record s {
      posts = suc s.posts;
      delivered = if o.post s.posts msg then s.delivered ++ (msg ∷ []) else s.delivered;
    },
  )

  -- A file that is written twice keeps the last content.
  unfoldable pub save_cache : String → Flow → Flow
  save_cache msg s = record s {
    files = insert (o.file_name (o.now s.reads)) msg s.files;
    reads = suc s.reads;
  }

  -- `SendToFlowServer`, with the message as it is encoded.
  unfoldable pub send_to_flow_server : String → Flow → Flow
  send_to_flow_server kafka_pack s =
      if ltb 2000 (length s.q)
      then save_cache kafka_pack s
      else record s { q = s.q ++ (kafka_pack ∷ []) }

  -- `readFile`
  unfoldable pub read_file : String → Flow → String
  read_file name s = elim (lookup name s.files) [ none ↦ "" | some content ↦ content ]

  -- The loop of `resendCache` over the names that it found.
  unfoldable pub resend_files : List String → Flow → Flow
  unfolding read_file
  resend_files [] s = s
  resend_files (name ∷ names) s =
      let (ok, s1) = send_message (read_file name s) s in
      let removed = record s1 {
        reupload_success_count = add_int s1.reupload_success_count 1;
        files = erase name s1.files;
      } in
      let rest = resend_files names removed in
      if ok then rest else record s1 { reupload_retry_count = add_int s1.reupload_retry_count 1 }

  unfoldable pub resend_cache : Flow → Flow
  resend_cache s =
      resend_files (map (λ f. f.0) s.files)
        (record s { history_reupload_count = add_int s.history_reupload_count (length s.files) })

  -- `while (failed_q.size() > 0)` after a message went through, and the value of `ret` at its end.
  unfoldable pub resend_failed : Bool → List String → Flow → Bool × Flow
  resend_failed ret [] s = (ret, record s { failed_q = [] })
  resend_failed ret (m ∷ ms) s =
      let (ok, s1) = send_message m s in
      let rest =
        resend_failed false ms
          (record s1 { reupload_success_count = add_int s1.reupload_success_count 1 }) in
      if ok
      then (
        true,
        record s1 { reupload_retry_count = add_int s1.reupload_retry_count 1; failed_q = m ∷ ms },
      )
      else rest

  -- The branch of a message that the server took.
  unfoldable pub after_success : Flow → Flow
  after_success s =
      let (ret, s1) = resend_failed true s.failed_q s in if ret then resend_cache s1 else s1

  -- The branch of a message that the server did not take.
  unfoldable pub after_failure : String → Flow → Flow
  after_failure m s = record s {
    continue_failed_cnt = add_int s.continue_failed_cnt 1;
    failed_q = s.failed_q ++ (m ∷ []);
    rt_upload_failed_count = add_int s.rt_upload_failed_count 1;
  }

  -- `while (failed_q.size() > 0)` at the tenth failure.
  unfoldable pub save_failed : List String → Flow → Flow
  save_failed [] s = record s { failed_q = []; continue_failed_cnt = 0 }
  save_failed (m ∷ ms) s = save_failed ms (save_cache m s)

  unfoldable pub flush_failed : Flow → Flow
  flush_failed s = if leb 10 s.continue_failed_cnt then save_failed s.failed_q s else s

  -- `if (metric_upload_freq++ % 20 == 0)`
  unfoldable pub count_metric : Flow → Flow
  count_metric s =
      if nat_beq (s.metric_upload_freq % 20) 0
      then record (send_metric s) { metric_upload_freq = 0 }
      else record s { metric_upload_freq = add_int s.metric_upload_freq 1 }

  -- One turn of the inner loop of `run`, on the front of the queue.
  unfoldable pub upload_one : String → List String → Flow → Flow
  upload_one m ms s =
      let (ok, s1) = send_message m s in
      let s2 = if ok then after_success s1 else after_failure m s1 in
      count_metric (flush_failed (record s2 { q = ms }))

  -- `while (q_.size() > 0)`
  unfoldable pub upload_all : List String → Flow → Flow
  upload_all [] s = s
  upload_all (m ∷ ms) s = upload_all ms (upload_one m ms s)
