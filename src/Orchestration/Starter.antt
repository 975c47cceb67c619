-- ===== src/Orchestration/Starter.antt =====
-- orchestration/starter.py and orchestration/dispatch.py: one workflow per object under a prefix.
-- The printed lines are left out.
pub mod Laws
pub mod Handles
use docling_serve_ray.Prelude.{
  ℕ, suc, ◌+◌, Bool, true, false, ◌||◌, ◌&&◌, not, Option, none, some, List, [], ◌∷◌, ◌++◌, leb,
  ltb, ◌==◌, if◌then◌else◌,
}
use docling_serve_ray.Text.{Text, codes, ends_with}
use docling_serve_ray.Dict.{Dict, insert}
use docling_serve_ray.Orchestration.Models.{
  ConvertInput, ConvertResult, workflow_id_for_convert, task_queue,
  default_safety_poll_interval_seconds, default_max_safety_polls,
}

pub record Args : Type 0 where
  pub bucket : Text
  pub prefix : Text
  pub to_formats : Text
  pub wait : Bool

-- A start of a workflow: its handle, the rejection of a duplicate, or another exception.
pub data Started (H : Type 0) : Type 0 where
  handle : H → Started H
  already_started : Started H
  start_raised : Started H

-- `handle.result()`: the result, a WorkflowFailureError, or another exception.
pub data Outcome : Type 0 where
  finished : ConvertResult → Outcome
  failed : Outcome
  result_raised : Outcome

-- The Temporal client over its state `W`: a start has the workflow's id, the task queue and input.
pub record Client (W H : Type 0) : Type 0 where
  pub start_workflow : Text → Text → ConvertInput → W → Started H × W
  pub get_workflow_handle : Text → H
  pub result : H → W → Outcome × W

-- `obj["Key"] for obj in ... if not obj["Key"].endswith("/")`
unfoldable pub objects : List Text → List Text
objects [] = []
objects (key ∷ contents) =
    let rest = objects contents in if ends_with key (codes "/") then rest else key ∷ rest

unfoldable pub list_objects : List (Option (List Text)) → List Text
unfolding objects
list_objects [] = []
list_objects (none ∷ pages) = list_objects pages
list_objects (some contents ∷ pages) = objects contents ++ list_objects pages

-- `str.isspace`
unfoldable pub is_space : ℕ → Bool
is_space c =
    leb 9 c && leb c 13
    || leb 28 c && leb c 32
    || c == 133
    || c == 160
    || c == 5760
    || leb 8192 c && leb c 8202
    || c == 8232
    || c == 8233
    || c == 8239
    || c == 8287
    || c == 12288

unfoldable pub strip_left : Text → Text
strip_left [] = []
strip_left (c ∷ s) = let rest = strip_left s in if is_space c then rest else c ∷ s

abbrev keep_unless_space : ℕ → Text → Text
keep_unless_space c [] = if is_space c then [] else c ∷ []
keep_unless_space c (d ∷ s) = c ∷ d ∷ s

unfoldable pub strip_right : Text → Text
strip_right [] = []
strip_right (c ∷ s) = keep_unless_space c (strip_right s)

abbrev add_to_first : ℕ → List Text → List Text
add_to_first c [] = (c ∷ []) ∷ []
add_to_first c (part ∷ parts) = (c ∷ part) ∷ parts

-- `s.split(",")`
unfoldable pub split_commas : Text → List Text
split_commas [] = [] ∷ []
split_commas (c ∷ s) =
    let rest = split_commas s in if c == b',' then [] ∷ rest else add_to_first c rest

abbrev add_unless_empty : Text → List Text → List Text
add_unless_empty [] ss = ss
add_unless_empty (c ∷ s) ss = (c ∷ s) ∷ ss

unfoldable pub parse_formats : List Text → List Text
unfolding strip_left strip_right
parse_formats [] = []
parse_formats (part ∷ parts) =
    add_unless_empty (strip_right (strip_left part)) (parse_formats parts)

-- `ConvertInput(bucket=bucket, key=key, to_formats=to_formats)`
abbrev input_of : Text → Text → List Text → ConvertInput
input_of bucket key to_formats = record {
  bucket = bucket;
  key = key;
  to_formats = to_formats;
  options = [];
  safety_poll_interval_seconds = default_safety_poll_interval_seconds;
  max_safety_polls = default_max_safety_polls;
}

module _ {W H : Type 0} (client : Client W H) where
  unfoldable pub start_conversion : ConvertInput → W → Started H × W
  start_conversion inp w =
      client.start_workflow (workflow_id_for_convert inp.bucket inp.key) task_queue inp w

  -- One turn's effect on the handles and the count: `none` where the exception goes on.
  unfoldable pub add_handle : Text → Text → Started H → Dict H → ℕ → Option (Dict H × ℕ)
  add_handle bucket key (handle h) handles started = some (insert key h handles, suc started)
  add_handle bucket key already_started handles started = some (
    insert key (client.get_workflow_handle (workflow_id_for_convert bucket key)) handles,
    started,
  )
  add_handle bucket key start_raised handles started = none

  -- The loop over the keys.
  unfoldable pub start_all : Text → List Text → List Text → Dict H → ℕ → W → Option (Dict H × ℕ) × W
  unfolding start_conversion add_handle
  start_all bucket to_formats [] handles started w = (some (handles, started), w)
  start_all bucket to_formats (key ∷ keys) handles started w =
      let (outcome, v) = start_conversion (input_of bucket key to_formats) w in
      elim (add_handle bucket key outcome handles started) [
        | none ↦ (none, v)
        | some (more, count) ↦ start_all bucket to_formats keys more count v
      ]

  -- The loop over the handles; it counts the failures.
  unfoldable pub await_all : Dict H → ℕ → W → Option ℕ × W
  await_all [] failures w = (some failures, w)
  await_all ((key, h) ∷ handles) failures w =
      let (outcome, v) = client.result h w in
      elim outcome [
        | finished r ↦ await_all handles failures v
        | failed ↦ await_all handles (suc failures) v
        | result_raised ↦ (none, v)
      ]

  abbrev pub exit_code : Option ℕ × W → Option ℕ × W
  exit_code (none, w) = (none, w)
  exit_code (some failures, w) = (some (if ltb 0 failures then 1 else 0), w)

  abbrev pub conclude : Bool → Option (Dict H × ℕ) × W → Option ℕ × W
  conclude wait (none, w) = (none, w)
  conclude false (some (handles, started), w) = (some 0, w)
  conclude true (some (handles, started), w) = exit_code (await_all handles 0 w)

  abbrev pub convert_keys : Args → List Text → W → Option ℕ × W
  convert_keys args [] w = (some 1, w)
  convert_keys args (key ∷ keys) w =
      conclude args.wait
        (start_all args.bucket (parse_formats (split_commas args.to_formats)) (key ∷ keys) [] 0 w)

  -- The exit code, or `none` where an exception ends the program. `pages` lists the prefix.
  unfoldable pub convert : Args → List (Option (List Text)) → W → Option ℕ × W
  unfolding list_objects parse_formats split_commas start_all await_all
  convert args pages w = convert_keys args (list_objects pages) w
