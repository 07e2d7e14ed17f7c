-- ===== src/Flow/Outage.antt =====
-- The flow upload while the server is out of reach, and when it comes back for a moment only.
use edge_frame.Prelude.{
  length, ltb, length-append, ℕ, suc, ◌+◌, ◌%◌, ◌≤◌, ◌<◌, ◌≡◌, refl, false, String, List, [], ◌∷◌,
  ◌++◌,
}
use edge_frame.Prelude.{
  string_eq, arith, All, All-append, All-implies, count_if, count_if-append, if_cases,
}
use edge_frame.Prelude.{if◌then◌else◌, nat_beq, leb, ◌==◌, insert}
use edge_frame.Flow.{
  Outside, Flow, send_metric, send_message, save_cache, send_to_flow_server, after_failure,
  save_failed, flush_failed, count_metric, upload_one, upload_all,
}

-- `insert` of a new key adds an entry at the end.
insert-eq-append :
    (k v : String) (m : List (String × String))
    → All (λ f. (f.0 == k) ≡ false) m
    → insert k v m ≡ m ++ ((k, v) ∷ [])
unfolding insert
insert-eq-append k v [] h = refl
insert-eq-append k v ((j, w) ∷ m) h = rw (h.0, insert-eq-append k v m h.1)

-- How often the message stands among the contents of the files.
abbrev pub stored : String → List (String × String) → ℕ
stored a files = count_if (λ f. f.1 == a) files

-- How often it stands in memory, among the messages that failed.
abbrev pub waiting : String → List String → ℕ
waiting a ms = count_if (λ m. m == a) ms

module _ (o : Outside) where
  -- The names of files that are still to come are new.
  abbrev pub IsFresh : Flow → Type 0
  IsFresh s = All (λ f. (i : ℕ) → s.reads ≤ i → (f.0 == o.file_name (o.now i)) ≡ false) s.files

  -- Two readings of the clock give two names.
  abbrev pub NamesDiffer : Type 0
  NamesDiffer = (i j : ℕ) → i < j → (o.file_name (o.now i) == o.file_name (o.now j)) ≡ false

  module _ (names : NamesDiffer) where
    save_cache-IsFresh :
        (m : String) (s : Flow)
        → IsFresh s
        → IsFresh (save_cache o m s)
          × ((a : String)
              → stored a (save_cache o m s).files ≡ (if m == a then 1 else 0) + stored a s.files)
    unfolding save_cache
    save_cache-IsFresh m s h =
        rw
          (insert-eq-append (o.file_name (o.now s.reads)) m s.files
            (All-implies _ _ (λ f k. k s.reads (omega arith)) s.files h))
          (
            All-append _ s.files _ (All-implies _ _ (λ f k i l. k i (omega arith)) s.files h)
                ((λ i l. names s.reads i (omega arith)), tt),
            λ a. omega (
              arith,
              count_if-append (λ f. f.1 == a) s.files ((o.file_name (o.now s.reads), m) ∷ []),
            ),
          )

    save_failed-stored :
        (ms : List String) (s : Flow)
        → IsFresh s
        → IsFresh (save_failed o ms s)
          × ((a : String)
              → waiting a (save_failed o ms s).failed_q + stored a (save_failed o ms s).files
                ≡ waiting a ms + stored a s.files)
    unfolding save_failed
    save_failed-stored [] s h = (h, λ a. refl)
    save_failed-stored (m ∷ ms) s h =
        let (fresh, once) = save_cache-IsFresh m s h in
        let (done, all) = save_failed-stored ms (save_cache o m s) fresh in
        (done, λ a. omega (arith, once a, all a))

    -- Every message is still held, `extra a` more of `a` than before.
    record Held (extra : String → ℕ) (s u : Flow) : Type 0 where
      fresh : IsFresh u
      held :
          (a : String)
          → waiting a u.failed_q + stored a u.files
            ≡ extra a + (waiting a s.failed_q + stored a s.files)

    flush_failed-Held : (s : Flow) → IsFresh s → Held (λ a. 0) s (flush_failed o s)
    unfolding flush_failed
    flush_failed-Held s h =
        let (fresh, all) = save_failed-stored s.failed_q s h in
        if_cases (Held (λ a. 0) s) (leb 10 s.continue_failed_cnt)
          (λ _. record { fresh = fresh; held = λ a. omega (arith, all a) })
          λ _. record { fresh = h; held = λ a. omega arith }

    count_metric-Held : (s : Flow) → IsFresh s → Held (λ a. 0) s (count_metric o s)
    unfolding count_metric send_metric
    count_metric-Held s h =
        if_cases (Held (λ a. 0) s) (nat_beq (s.metric_upload_freq % 20) 0)
          (λ _.
            if_cases (λ u. Held (λ a. 0) s (record u { metric_upload_freq = 0 })) _
              (λ _. record { fresh = h; held = λ a. omega arith })
              λ _. record { fresh = h; held = λ a. omega arith })
          λ _. record { fresh = h; held = λ a. omega arith }

    -- `SendToFlowServer` keeps the queue at 2001 messages at most, and each message that it is given
    -- stands afterwards in the queue or in a file, if no two files get the same name.
    pub send_to_flow_server-bounded :
        (m : String) (s : Flow)
        → IsFresh s
        → length s.q ≤ 2001
        → (a : String)
        → (length (send_to_flow_server o m s).q ≤ 2001)
          × (waiting a (send_to_flow_server o m s).q + stored a (send_to_flow_server o m s).files
              ≡ (if m == a then 1 else 0) + (waiting a s.q + stored a s.files))
    unfolding send_to_flow_server save_cache
    send_to_flow_server-bounded m s h k a =
        if_cases {A = Flow}
          (λ u.
            (length u.q ≤ 2001)
            × (waiting a u.q + stored a u.files
                ≡ (if m == a then 1 else 0) + (waiting a s.q + stored a s.files)))
          (ltb 2000 (length s.q)) (λ _. (k, omega (arith, (save_cache-IsFresh m s h).1 a)))
          λ q.
            let room : length s.q ≤ 2000 = ground arith in
            (
              omega (arith, length-append s.q (m ∷ []), room),
              omega (arith, count_if-append (λ x. x == a) s.q (m ∷ [])),
            )

    module _ (down : (i : ℕ) (m : String) → o.post i m ≡ false) where
      after_failure-Held :
          (m : String) (ms : List String) (s : Flow)
          → IsFresh s
          → Held (λ a. if m == a then 1 else 0) s (record (after_failure o m s) { q = ms })
      unfolding after_failure
      after_failure-Held m ms s h = record {
        fresh = h;
        held = λ a. omega (arith, count_if-append (λ k. k == a) s.failed_q (m ∷ []));
      }

      upload_one-Held :
          (m : String) (ms : List String) (s : Flow)
          → (m == "") ≡ false
          → IsFresh s
          → Held (λ a. if m == a then 1 else 0) s (upload_one o m ms s)
      unfolding upload_one send_message
      upload_one-Held m ms s e h =
          rw (e, down s.posts m)
            (let s1 = record s { posts = suc s.posts } in
              let failed = after_failure-Held m ms s1 h in
              let flushed = flush_failed-Held _ failed.fresh in
              let counted = count_metric-Held _ flushed.fresh in
              record {
                fresh = counted.fresh;
                held = λ a. omega (arith, failed.held a, flushed.held a, counted.held a);
              })

      -- While the server refuses everything, no message is lost or duplicated: each message of the
      -- queue, and each that had failed before, stands afterwards in memory or in a file, as often
      -- as it did, if no message is empty and no two files get the same name.
      pub upload_all-Held :
          (ms : List String) (s : Flow)
          → All (λ m. (m == "") ≡ false) ms
          → IsFresh s
          → (a : String)
          → waiting a (upload_all o ms s).failed_q + stored a (upload_all o ms s).files
            ≡ waiting a ms + (waiting a s.failed_q + stored a s.files)
      unfolding upload_all
      upload_all-Held [] s e h a = omega arith
      upload_all-Held (m ∷ ms) s e h a =
          let one = upload_one-Held m ms s e.0 h in
          omega (arith, one.held a, upload_all-Held ms (upload_one o m ms s) e.1 one.fresh a)
