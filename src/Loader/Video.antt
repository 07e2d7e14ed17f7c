-- ===== src/Loader/Video.antt =====
-- src/processor/LocalVideoLoaderProcessor.cpp: the videos of a directory, one after the other. The
-- files below a directory, whether a video opens, and the times of its frames come from outside.
use Prim.Native.String.{find, len}
use edge_frame.Prelude.{
  ℕ, suc, ◌+◌, ◌≡◌, refl, ap, sym, ◌∙◌, Bool, true, String, List, [], ◌∷◌, ◌++◌, Option, none, some,
  if◌then◌else◌, ltb, ◌<◌, arith, All, length, append-nil, append_assoc, length-append,
}
use edge_frame.Loader.Usb.{Frame}

-- `SysPublicTool::getFiles` with the videos that it finds, the last first; `isOpened` after opening a
-- file; and the times at which the frames of a video are read.
pub record Disk : Type 0 where
  pub get_files : String → List String
  pub opens : String → Bool
  pub frames : String → List ℕ

-- The members, with `localVideoList_` from its back, what was pushed, and `gt->sys_quit`.
pub record Video : Type 0 where
  pub is_ready : Bool
  pub frame_id : ℕ
  pub local_video_file : String
  pub pushed : List Frame
  pub sys_quit : Bool

module _ (D : Disk) where
  -- `init`, up to `loadVideo`: the list.
  unfoldable pub list_videos : String → List String
  list_videos file = if ltb (find file ".mp4") (suc (len file)) then file ∷ [] else D.get_files file

  -- The video that `loadVideo` opens first; `none` is a fatal error.
  unfoldable pub first_video : List String → Option String
  first_video [] = none
  first_video (file ∷ rest) = if D.opens file then some file else none

module _ (D : Disk) (camera_sn : String) where
  -- The frames of the video that is open.
  unfoldable pub play : List ℕ → Video → Video
  play [] v = v
  play (t ∷ times) v =
      let id = v.frame_id + 1 in
      let frame : Frame = record { camera_time = t; camera_sn = camera_sn; frame_id = id } in
      play times (record v { is_ready = true; frame_id = id; pushed = v.pushed ++ (frame ∷ []) })

  -- `run` with `loadVideo` at the end of each video, from there on; `none` is a video that does not open, which is
  -- a fatal error. At the end of the list, the program is told to quit.
  unfoldable pub play_all : List String → Video → Option Video
  play_all [] v = some (record v { sys_quit = true })
  play_all (file ∷ rest) v =
      let played = play_all rest (play (D.frames file) (record v { local_video_file = file })) in
      if D.opens file then played else none

  -- `run` after `init` made the list; an empty list is a fatal error.
  unfoldable pub play_list : List String → Video → Option Video
  play_list [] v = none
  play_list (file ∷ rest) v = play_all (file ∷ rest) v

  -- `init` and `run`
  unfoldable pub local_video : String → Video → Option Video
  local_video file = play_list (list_videos D file)

  -- The frames of these times, numbered from the count on.
  abbrev pub numbered : ℕ → List ℕ → List Frame
  numbered n [] = []
  numbered n (t ∷ times) =
      record { camera_time = t; camera_sn = camera_sn; frame_id = n + 1 } ∷ numbered (n + 1) times

  abbrev pub all_frames : List String → List ℕ
  all_frames [] = []
  all_frames (file ∷ files) = D.frames file ++ all_frames files

  -- What playing the frames of these times leaves.
  pub record Played (times : List ℕ) (v w : Video) : Type 0 where
    pub frame_id : w.frame_id ≡ v.frame_id + length times
    pub pushed : w.pushed ≡ v.pushed ++ numbered v.frame_id times

  play-Played : (times : List ℕ) (v : Video) → Played times v (play times v)
  unfolding play
  play-Played [] v = record { frame_id = omega arith; pushed = sym (append-nil v.pushed) }
  play-Played (t ∷ times) v =
      let frame : Frame = record {
        camera_time = t;
        camera_sn = camera_sn;
        frame_id = v.frame_id + 1;
      } in
      let next : Video = record v {
        is_ready = true;
        frame_id = v.frame_id + 1;
        pushed = v.pushed ++ (frame ∷ []);
      } in
      let later = play-Played times next in
      record {
        frame_id = omega (arith, later.frame_id);
        pushed =
            later.pushed ∙ append_assoc v.pushed (frame ∷ []) (numbered (v.frame_id + 1) times);
      }

  numbered-append :
      (n : ℕ) (xs ys : List ℕ)
      → numbered n (xs ++ ys) ≡ numbered n xs ++ numbered (n + length xs) ys
  numbered-append n [] ys = ap (λ k. numbered k ys) (omega arith)
  numbered-append n (x ∷ xs) ys =
      let shift : n + 1 + length xs ≡ n + suc (length xs) = omega arith in
      let here : Frame = record { camera_time = x; camera_sn = camera_sn; frame_id = n + 1 } in
      ap (λ l. here ∷ l)
        (numbered-append (n + 1) xs ys ∙ ap (λ k. numbered (n + 1) xs ++ numbered k ys) shift)

  play_all-ends :
      (files : List String) (v : Video)
      → All (λ file. D.opens file ≡ true) files
      → (w : Video) × (play_all files v ≡ some w)
        × (w.sys_quit ≡ true)
        × Played (all_frames files) v w
  unfolding play_all
  play_all-ends [] v h = (
    record v { sys_quit = true },
    refl,
    refl,
    record { frame_id = omega arith; pushed = sym (append-nil v.pushed) },
  )
  play_all-ends (file ∷ rest) v h =
      let played = play (D.frames file) (record v { local_video_file = file }) in
      let here = play-Played (D.frames file) (record v { local_video_file = file }) in
      let (w, e, quit, later) = play_all-ends rest played h.1 in
      (
        w,
        rw h.0 e,
        quit,
        record {
          frame_id = omega (
            arith,
            later.frame_id,
            here.frame_id,
            length-append (D.frames file) (all_frames rest),
          );
          pushed =
              later.pushed
              ∙ ap (λ n. played.pushed ++ numbered n (all_frames rest)) here.frame_id
              ∙ ap (λ l. l ++ numbered (v.frame_id + length (D.frames file)) (all_frames rest))
                  here.pushed
              ∙ append_assoc v.pushed _ _
              ∙ ap (λ l. v.pushed ++ l)
                  (sym (numbered-append v.frame_id (D.frames file) (all_frames rest)));
        },
      )

  play_list-ends :
      (files : List String) (v : Video)
      → 0 < length files
      → All (λ file. D.opens file ≡ true) files
      → (w : Video) × (play_list files v ≡ some w)
        × (w.sys_quit ≡ true)
        × Played (all_frames files) v w
  unfolding play_list
  play_list-ends [] v lt h = absurd (omega (arith, lt))
  play_list-ends (file ∷ rest) v lt h = play_all-ends (file ∷ rest) v h

  -- If there is a video and every video opens, the loader comes to its end: it has pushed the frames
  -- of all of them, in order and with numbers that go up by one, and it tells the program to quit.
  pub local_video-ends :
      (file : String) (v : Video)
      → 0 < length (list_videos D file)
      → All (λ name. D.opens name ≡ true) (list_videos D file)
      → (w : Video) × (local_video file v ≡ some w)
        × (w.sys_quit ≡ true)
        × Played (all_frames (list_videos D file)) v w
  unfolding local_video
  local_video-ends file v lt h = play_list-ends (list_videos D file) v lt h
