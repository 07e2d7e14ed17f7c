-- ===== src/Pipeline/Load.antt =====
-- The loader that a video input gets, and its queue.
use Prim.Native.String.{◌++◌ as ◌+++◌}
use edge_frame.Prelude.{
  suc, ◌≡◌, ◌≢◌, refl, sym, ◌∙◌, subst, Bool, true, false, String, [], none, some, ◌>>=◌, ◌==◌,
  string_eq, lookup, insert, lookup-insert, Bool-cases, Option-cases, inl, inr, arith, ◌⊎◌,
}
use edge_frame.Objects.{Manager, safe_get, safe_add, lock, unlock}
use edge_frame.Loader.Video.{Disk, list_videos, first_video}
use edge_frame.Pipeline.{
  Kind, Processor, Service, build_processor, loaders, create, regist, queue_of, init_processor,
  detect_name, QueuePtr, rtsp_name, usb_camera_name, local_video_name, rtsp_loader, usb_loader,
  local_video_loader, hisi_camera_name,
}
use edge_frame.Pipeline.Start.{init_loader, data_loader_name, has}

module _ {V : Type 0} where
  -- An object that is added does not replace one that is there.
  record Added (m : Manager V) (r : Bool × Manager V) : Type 0 where
    free : r.1.locked ≡ false
    keeps : (j : String) (w : V) → lookup j m.entries ≡ some w → lookup j r.1.entries ≡ some w

  add_keeps :
      (name : String) (v : V) (m : Manager V)
      → m.locked ≡ false
      → (r : Bool × Manager V) × (safe_add name v m ≡ some r) × Added m r
  unfolding safe_add lock unlock
  add_keeps name v m h = elim (Option-cases (lookup name m.entries)) [
    | inl e ↦ (
      (true, record m { locked = false; entries = insert name v m.entries }),
      rw (h, e) refl,
      record {
        free = refl;
        keeps = λ j w f.
            grind (arith, e, f, lookup-insert name j v m.entries, string_eq.same_iff name j);
      },
    )
    | inr (w, e) ↦ (
      (false, record m { locked = false }),
      rw (h, e) refl,
      record { free = refl; keeps = λ j w f. f },
    )
  ]

queue_of_lem :
    (name : String) (q : QueuePtr) (s : Service)
    → s.queues.locked ≡ false
    → lookup name s.queues.entries ≡ some q
    → queue_of name s ≡ some q
unfolding queue_of safe_get lock
queue_of_lem name q s h e = rw (h, e) refl

abbrev pub made_loader : Kind → String → Processor
made_loader kind name = record {
  kind = kind;
  processor_name = name;
  next_processor_name = detect_name;
  input_queue = none;
  output_queue = none;
  next_processor_unit = [];
}

-- A service whose detector has the queue `q`, and the mutex is free.
pub record IsOpen (q : QueuePtr) (s : Service) : Type 0 where
  pub free : s.queues.locked ≡ false
  pub detect : lookup detect_name s.queues.entries ≡ some q

-- What does not change when the loaders are built.
pub record Same (s t : Service) : Type 0 where
  pub entries :
      (j : String) (w : QueuePtr)
      → lookup j s.queues.entries ≡ some w
      → lookup j t.queues.entries ≡ some w
  pub executors : t.executors ≡ s.executors
  pub global_executors : t.global_executors ≡ s.global_executors
  pub core_executors : t.core_executors ≡ s.core_executors

-- The loader that an input gets is made and writes to the detector's queue.
pub record Loaded (D : Disk) (input : String) (q : QueuePtr) (name : String) (s : Service)
    : Type 0 where
  pub loader : Processor
  pub built : Service
  pub build : build_processor loaders name detect_name s ≡ some (loader, built)
  pub ready : init_loader D input loader built ≡ some (record loader { output_queue = q })
  pub opened : IsOpen q built
  pub same : Same s built
  pub inputs : built.video_input_executors ≡ s.video_input_executors

-- A class that the factory knows and whose `init` takes the detector's queue.
abbrev IsLoader : Disk → String → Kind → String → Type 0
IsLoader D input kind name =
    (create ("whale::vision::" +++ name) loaders ≡ some kind)
    × ((s : Service)
        → init_loader D input (made_loader kind name) s ≡ (
            queue_of detect_name s >>= λ output.
            some (record (made_loader kind name) { output_queue = output })))

load :
    (D : Disk) (input : String) (q : QueuePtr) (kind : Kind) (name : String) (s : Service)
    → IsLoader D input kind name
    → IsOpen q s
    → Loaded D input q name s
unfolding build_processor
load D input q kind name s known h =
    let (r, e, kept) = add_keeps name (some s.made) s.queues h.free in
    let built : Service = record s { queues = r.1; made = suc s.made } in
    let found = kept.keeps detect_name q h.detect in
    record {
      loader = made_loader kind name;
      built = built;
      build = rw (known.0, e) refl;
      ready = known.1 built ∙ rw (queue_of_lem detect_name q built kept.free found) refl;
      opened = record { free = kept.free; detect = found };
      same = record {
        entries = kept.keeps;
        executors = refl;
        global_executors = refl;
        core_executors = refl;
      };
      inputs = refl;
    }

rtsp-IsLoader : (D : Disk) (input : String) → IsLoader D input rtsp_loader rtsp_name
unfolding create loaders regist init_loader init_processor lookup insert
rtsp-IsLoader D input = (refl, λ s. refl)

usb-IsLoader : (D : Disk) (input : String) → IsLoader D input usb_loader usb_camera_name
unfolding create loaders regist init_loader init_processor lookup insert
usb-IsLoader D input = (refl, λ s. refl)

local_video-IsLoader :
    (D : Disk) (input : String) {file : String}
    → first_video D (list_videos D input) ≡ some file
    → IsLoader D input local_video_loader local_video_name
unfolding create loaders regist init_loader init_processor lookup insert
local_video-IsLoader D input e = (refl, λ s. rw e refl)

-- An input that is neither an rtmp stream nor the name of a HiSilicon camera; and if it names local
-- videos, then there is one, and the first of them opens.
abbrev pub IsServed : Disk → String → Type 0
IsServed D input =
    (data_loader_name input ≢ "")
    × (data_loader_name input ≢ hisi_camera_name)
    × (data_loader_name input ≡ local_video_name
        → (file : String) × (first_video D (list_videos D input) ≡ some file))

loader_cases :
    (input : String)
    → (data_loader_name input ≡ rtsp_name)
      ⊎ ((data_loader_name input ≡ usb_camera_name)
          ⊎ ((data_loader_name input ≡ "")
              ⊎ ((data_loader_name input ≡ hisi_camera_name)
                  ⊎ (data_loader_name input ≡ local_video_name))))
unfolding data_loader_name
loader_cases input = elim (Bool-cases (has input "rtsp")) [
  | inl a ↦ inl (rw a refl)
  | inr a ↦ elim (Bool-cases (has input "/dev")) [
    | inl b ↦ inr (inl (rw (a, b) refl))
    | inr b ↦ elim (Bool-cases (has input "rtmp")) [
      | inl c ↦ inr (inr (inl (rw (a, b, c) refl)))
      | inr c ↦ elim (Bool-cases (input == "hisi")) [
        | inl d ↦ inr (inr (inr (inl (rw (a, b, c, d) refl))))
        | inr d ↦ inr (inr (inr (inr (rw (a, b, c, d) refl))))
      ]
    ]
  ]
]

pub load_input :
    (D : Disk) (q : QueuePtr) (input : String) (s : Service)
    → IsServed D input
    → IsOpen q s
    → Loaded D input q (data_loader_name input) s
load_input D q input s served h = elim (loader_cases input) [
  | inl e ↦
      subst (λ n. Loaded D input q n s) (sym e)
        (load D input q rtsp_loader rtsp_name s (rtsp-IsLoader D input) h)
  | inr (inl e) ↦
      subst (λ n. Loaded D input q n s) (sym e)
        (load D input q usb_loader usb_camera_name s (usb-IsLoader D input) h)
  | inr (inr (inl e)) ↦ absurd (served.0 e)
  | inr (inr (inr (inl e))) ↦ absurd (served.1 e)
  | inr (inr (inr (inr e))) ↦
      subst (λ n. Loaded D input q n s) (sym e)
        (load D input q local_video_loader local_video_name s
          (local_video-IsLoader D input (served.2 e).1) h)
]
