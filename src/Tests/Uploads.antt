-- ===== src/Tests/Uploads.antt =====
-- The flow upload and the metrics at concrete values.
use edge_frame.Prelude.{
  length, ℕ, zero, suc, ◌+◌, ◌≤◌, ◌≡◌, ◌≢◌, refl, ap, true, false, String, [], ◌∷◌,
}
use edge_frame.Prelude.{string_eq, arith, ◌==◌, ltb, Bool-cases, inl, inr}
use Prim.Native.String.{count, ◌++◌ as str_append}
use text.Mathlib.TextLemmas as TextLemmas
use edge_frame.Flow.{Outside, Flow, resend_failed, after_success, upload_all}
use edge_frame.Flow.Backlog.{IsBacklog, upload_all-IsBacklog}
use edge_frame.Flow.{send_to_flow_server}
use edge_frame.Flow.Outage.{
  send_to_flow_server-bounded, NamesDiffer, waiting, stored, upload_all-Held,
}
use edge_frame.Flow.Retry.{after_success-loses, after_success_repeats}

-- A name for each number.
abbrev name_of : ℕ → String
name_of zero = ""
name_of (suc n) = str_append "x" (name_of n)

count-name_of : (n : ℕ) → count (name_of n) ≡ n
count-name_of zero = refl
count-name_of (suc n) = omega (arith, TextLemmas.length-append "x" (name_of n), count-name_of n)

abbrev down : Outside
down = record { post = λ i m. false; now = λ n. n; file_name = name_of }

abbrev pub up : Outside
up = record down { post = λ i m. true }

-- The server takes one message and then no more.
abbrev flaky : Outside
flaky = record down { post = λ i m. ltb i 1 }

down-NamesDiffer : NamesDiffer down
down-NamesDiffer i j h = elim (Bool-cases (name_of i == name_of j)) [
  | inl q ↦ absurd (differ ((string_eq.same_iff (name_of i) (name_of j)).0 q))
  | inr q ↦ q
]
  where
    differ : name_of i ≢ name_of j
    differ e = omega (arith, ap count e, count-name_of i, count-name_of j)

abbrev pub backlog : Flow
backlog = record {
  q = "a" ∷ "b" ∷ [];
  failed_q = "c" ∷ [];
  continue_failed_cnt = 9;
  metric_upload_freq = 0;
  rt_upload_failed_count = 0;
  reupload_success_count = 0;
  reupload_retry_count = 0;
  history_reupload_count = 0;
  files = [];
  posts = 1;
  reads = 0;
  delivered = [];
}

backlog-IsBacklog : IsBacklog down backlog
backlog-IsBacklog = record { counted = omega arith; below_ten = omega arith }

upload_all-IsBacklog_example :
    IsBacklog down (upload_all down ("a" ∷ "b" ∷ []) backlog)
    × ((upload_all down ("a" ∷ "b" ∷ []) backlog).q ≡ [])
upload_all-IsBacklog_example =
    upload_all-IsBacklog down ("a" ∷ "b" ∷ []) backlog refl backlog-IsBacklog

upload_all-Held_example :
    waiting "c" (upload_all down ("a" ∷ "b" ∷ []) backlog).failed_q
      + stored "c" (upload_all down ("a" ∷ "b" ∷ []) backlog).files
    ≡ 1
upload_all-Held_example =
    upload_all-Held down down-NamesDiffer (λ i m. refl) ("a" ∷ "b" ∷ []) backlog (refl, (refl, tt))
      tt "c"

refused : (i : ℕ) (m : String) → 1 ≤ i → ltb i 1 ≡ false
refused i m h = ground arith

after_success-loses_example :
    ((after_success flaky backlog).failed_q ≡ [])
    × ((after_success flaky backlog).delivered ≡ [])
    × ((after_success flaky backlog).files ≡ [])
after_success-loses_example = after_success-loses flaky backlog "c" [] refl (refl, tt) refused

after_success_repeats_example :
    ((after_success up backlog).failed_q ≡ "c" ∷ [])
    × ((resend_failed up true backlog.failed_q backlog).1.delivered ≡ "c" ∷ [])
after_success_repeats_example = after_success_repeats up backlog "c" [] refl refl refl

send_to_flow_server-bounded_example :
    (length (send_to_flow_server down "d" backlog).q ≤ 2001)
    × (waiting "d" (send_to_flow_server down "d" backlog).q
          + stored "d" (send_to_flow_server down "d" backlog).files
        ≡ 1)
send_to_flow_server-bounded_example =
    send_to_flow_server-bounded down down-NamesDiffer "d" backlog tt (omega arith) "d"
