-- ===== src/Flow/Retry.antt =====
-- The retry of failed messages once a message has gone through. The loop pops a message when the
-- server refuses it and stops when the server takes it.
use edge_frame.Prelude.{
  ℕ, suc, ◌≤◌, ◌≡◌, refl, sym, subst, ◌∙◌, Bool, true, false, String, List, [], ◌∷◌, ◌++◌,
}
use edge_frame.Prelude.{string_eq, arith, All, add_int, if_cases, ◌==◌}
use edge_frame.Flow.{
  Outside, Flow, send_message, read_file, resend_files, resend_cache, resend_failed, after_success,
}

module _ (o : Outside) where
  resend_failed-refused :
      (ms : List String) (s : Flow)
      → All (λ m. (m == "") ≡ false) ms
      → ((i : ℕ) (m : String) → s.posts ≤ i → o.post i m ≡ false)
      → ((resend_failed o false ms s).0 ≡ false)
        × ((resend_failed o false ms s).1.failed_q ≡ [])
        × ((resend_failed o false ms s).1.delivered ≡ s.delivered)
        × ((resend_failed o false ms s).1.files ≡ s.files)
  unfolding resend_failed send_message
  resend_failed-refused [] s e h = (refl, refl, refl, refl)
  resend_failed-refused (m ∷ ms) s e h =
      rw (e.0, h s.posts m (omega arith))
        (resend_failed-refused ms
          (record s {
            posts = suc s.posts;
            reupload_success_count = add_int s.reupload_success_count 1;
          })
          e.1 (λ i k l. h i k (omega arith)))

  abbrev Lost : Flow → List String → Type 0
  Lost s ms =
      ((resend_failed o true ms s).0 ≡ false)
      × ((resend_failed o true ms s).1.failed_q ≡ [])
      × ((resend_failed o true ms s).1.delivered ≡ s.delivered)
      × ((resend_failed o true ms s).1.files ≡ s.files)

  first_refused :
      (s : Flow) (x : String) (xs : List String)
      → All (λ m. (m == "") ≡ false) (x ∷ xs)
      → ((i : ℕ) (m : String) → s.posts ≤ i → o.post i m ≡ false)
      → Lost s (x ∷ xs)
  unfolding resend_failed send_message
  first_refused s x xs e h =
      rw (e.0, h s.posts x (omega arith))
        (resend_failed-refused xs
          (record s {
            posts = suc s.posts;
            reupload_success_count = add_int s.reupload_success_count 1;
          })
          e.1 (λ i k l. h i k (omega arith)))

  -- After a message has gone through, a server that refuses what follows makes the failed messages
  -- vanish: none of them is delivered, written to a file or kept in memory.
  pub after_success-loses :
      (s : Flow) (x : String) (xs : List String)
      → s.failed_q ≡ x ∷ xs
      → All (λ m. (m == "") ≡ false) (x ∷ xs)
      → ((i : ℕ) (m : String) → s.posts ≤ i → o.post i m ≡ false)
      → ((after_success o s).failed_q ≡ [])
        × ((after_success o s).delivered ≡ s.delivered)
        × ((after_success o s).files ≡ s.files)
  unfolding after_success
  after_success-loses s x xs q e h =
      let (stopped, emptied, same, kept) = subst (Lost s) (sym q) (first_refused s x xs e h) in
      rw stopped (emptied, same, kept)

  send_message-failed_q : (m : String) (s : Flow) → (send_message o m s).1.failed_q ≡ s.failed_q
  unfolding send_message
  send_message-failed_q m s =
      if_cases {A = Bool × Flow} (λ r. r.1.failed_q ≡ s.failed_q) (m == "") (λ _. refl) λ _. refl

  resend_files-failed_q :
      (names : List String) (s : Flow) → (resend_files o names s).failed_q ≡ s.failed_q
  unfolding resend_files
  resend_files-failed_q [] s = refl
  resend_files-failed_q (name ∷ names) s =
      let u = (send_message o (read_file o name s) s).1 in
      let same = send_message-failed_q (read_file o name s) s in
      if_cases {A = Flow} (λ v. v.failed_q ≡ s.failed_q) (send_message o (read_file o name s) s).0
        (λ _. resend_files-failed_q names _ ∙ same) λ _. same

  abbrev Repeats : Flow → String → List String → List String → Type 0
  Repeats s x xs ms =
      ((resend_failed o true ms s).0 ≡ true)
      × ((resend_failed o true ms s).1.failed_q ≡ x ∷ xs)
      × ((resend_failed o true ms s).1.delivered ≡ s.delivered ++ (x ∷ []))

  first_taken :
      (s : Flow) (x : String) (xs : List String)
      → (x == "") ≡ false
      → o.post s.posts x ≡ true
      → Repeats s x xs (x ∷ xs)
  unfolding resend_failed send_message
  first_taken s x xs e h = rw (e, h) (refl, refl, refl)

  -- If the server takes the first failed message, too, that message is delivered but all the failed
  -- messages stay in the queue, so that it is delivered again the next time.
  pub after_success_repeats :
      (s : Flow) (x : String) (xs : List String)
      → s.failed_q ≡ x ∷ xs
      → (x == "") ≡ false
      → o.post s.posts x ≡ true
      → ((after_success o s).failed_q ≡ x ∷ xs)
        × ((resend_failed o true s.failed_q s).1.delivered ≡ s.delivered ++ (x ∷ []))
  unfolding after_success resend_cache
  after_success_repeats s x xs q e h =
      let (ok, kept, sent) = subst (Repeats s x xs) (sym q) (first_taken s x xs e h) in
      rw ok (resend_files-failed_q _ _ ∙ kept, sent)
