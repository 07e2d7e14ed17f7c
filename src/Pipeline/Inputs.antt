-- ===== src/Pipeline/Inputs.antt =====
-- The loaders of the video inputs, which all feed the detector.
use edge_frame.Prelude.{
  ◌≡◌, refl, sym, ◌∙◌, subst, true, String, List, [], ◌∷◌, some, ◌==◌, string_eq, lookup, insert,
  lookup-insert, Bool-cases, inl, inr, arith, All,
}
use edge_frame.Objects.{is_some}
use edge_frame.Loader.Video.{Disk}
use edge_frame.Pipeline.{Processor, Service, QueuePtr}
use edge_frame.Pipeline.Start.{build_inputs}
use edge_frame.Pipeline.Load.{IsOpen, Same, IsServed, load_input}

-- The map of the executors, by input.
abbrev Executors : Type 0
Executors = List (String × Processor)

abbrev pub Feeds : QueuePtr → Executors → Type 0
Feeds q = All (λ e. e.1.output_queue ≡ q)

insert-Feeds :
    (q : QueuePtr) (name : String) (p : Processor) (m : Executors)
    → p.output_queue ≡ q
    → Feeds q m
    → Feeds q (insert name p m)
unfolding insert
insert-Feeds q name p [] hp h = (hp, tt)
insert-Feeds q name p ((k, v) ∷ m) hp h = elim (Bool-cases (k == name)) [
  | inl e ↦ rw e (hp, h.1)
  | inr e ↦ rw e (h.0, insert-Feeds q name p m hp h.1)
]

abbrev pub HasLoader : Executors → String → Type 0
HasLoader m input = is_some (lookup input m) ≡ true

insert-HasLoader :
    (name input : String) (p : Processor) (m : Executors)
    → HasLoader m input
    → HasLoader (insert name p m) input
insert-HasLoader name input p m h = grind (arith, lookup-insert name input p m, h)

insert-HasLoader-same :
    (name : String) (p : Processor) (m : Executors) → HasLoader (insert name p m) name
insert-HasLoader-same name p m =
    grind (arith, lookup-insert name name p m, string_eq.same_iff name name)

-- After the loop over the inputs.
pub record IsFed (q : QueuePtr) (inputs : List String) (s t : Service) : Type 0 where
  pub same : Same s t
  pub feeds : Feeds q t.video_input_executors
  pub all : All (HasLoader t.video_input_executors) inputs
  pub kept :
      (i : String) → HasLoader s.video_input_executors i → HasLoader t.video_input_executors i

pub build_inputs-IsFed :
    (D : Disk) (q : QueuePtr) (inputs : List String) (s : Service)
    → All (IsServed D) inputs
    → IsOpen q s
    → Feeds q s.video_input_executors
    → (t : Service) × (build_inputs D inputs s ≡ some t) × IsFed q inputs s t
unfolding build_inputs
build_inputs-IsFed D q [] s served h f = (
  s,
  refl,
  record {
    same = record {
      entries = λ j w e. e;
      executors = refl;
      global_executors = refl;
      core_executors = refl;
    };
    feeds = f;
    all = tt;
    kept = λ i e. e;
  },
)
build_inputs-IsFed D q (input ∷ rest) s served h f =
    let l = load_input D q input s served.0 h in
    let made : Processor = record (l.loader) { output_queue = q } in
    let next : Service = record (l.built) {
      video_input_executors = insert input made l.built.video_input_executors;
    } in
    let fed : Feeds q l.built.video_input_executors = subst (Feeds q) (sym l.inputs) f in
    let (t, e, r) =
      build_inputs-IsFed D q rest next served.1
        (record { free = l.opened.free; detect = l.opened.detect })
        (insert-Feeds q input made l.built.video_input_executors refl fed) in
    let mine = r.kept input (insert-HasLoader-same input made l.built.video_input_executors) in
    (
      t,
      rw (l.build, l.ready) e,
      record {
        same = record {
          entries = λ j w g. r.same.entries j w (l.same.entries j w g);
          executors = r.same.executors ∙ l.same.executors;
          global_executors = r.same.global_executors ∙ l.same.global_executors;
          core_executors = r.same.core_executors ∙ l.same.core_executors;
        };
        feeds = r.feeds;
        all = (mine, r.all);
        kept = λ i g. r.kept i (
            insert-HasLoader input i made l.built.video_input_executors
              (subst (λ m. HasLoader m i) (sym l.inputs) g));
      },
    )
