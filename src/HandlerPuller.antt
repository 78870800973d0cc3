-- ===== src/HandlerPuller.antt =====
-- go/worker/lambda/handlerPuller.go: the cache of directories with the code of functions. A directory
-- stands under the number in its name. The blob store and the file system are given by their answers. A
-- modification time is a number, and the zero time of an entry that was pulled without one is `none`.
mod Directories
mod Entries
mod Fresh
mod Tests
use open_lambda.Prelude.{
  ℕ, suc, Bool, true, false, ◌&&◌, List, [], ◌∷◌, Option, none, some, if◌then◌else◌, ◌==◌,
}
use open_lambda.Prelude.Texts.{Text, same_text}
use open_lambda.Prelude.Maps.{update}
use open_lambda.LambdaConfig.{validate_function_name}
use open_lambda.LambdaFunc.Pull.{Runtime, python, native}

pub record CacheEntry : Type 0 where
  pub version : Option ℕ
  pub path : ℕ

-- What a directory holds: the code of a function at a version, or what a failed extraction left.
pub data Content : Type 0 where
  code : Text → ℕ → Content
  partial : Content

pub record HandlerPuller : Type 0 where
  pub dir_cache : List (Text × CacheEntry)
  pub dirs : ℕ → Option Content
  pub next_dir_id : ℕ
  pub tmp_files : ℕ

pub data Blob : Type 0 where
  not_found : Blob
  unreadable : Blob
  found : ℕ → Blob

-- The answers during one call: the modification time, if `Attributes` has no error, what the reader
-- finds, and which calls of the file system succeed.
pub record Answers : Type 0 where
  pub mod_time : Option ℕ
  pub blob : Blob
  pub tmp_ok : Bool
  pub copy_ok : Bool
  pub mkdir_ok : Bool
  pub tar_ok : Bool

-- A directory or an error.
pub data Pulled : Type 0 where
  pulled : ℕ → HandlerPuller → Pulled
  fails : HandlerPuller → Pulled

abbrev pub get_cache : Text → List (Text × CacheEntry) → Option CacheEntry
get_cache name [] = none
get_cache name ((n, e) ∷ es) =
    let rest = get_cache name es in if same_text n name then some e else rest

abbrev pub drop_cache : Text → List (Text × CacheEntry) → List (Text × CacheEntry)
drop_cache name [] = []
drop_cache name ((n, e) ∷ es) =
    let rest = drop_cache name es in if same_text n name then rest else (n, e) ∷ rest

abbrev pub remove_all : ℕ → HandlerPuller → HandlerPuller
remove_all d p = record p { dirs = update p.dirs d none }

unfoldable pub reset : Text → HandlerPuller → HandlerPuller
reset name p = record p { dir_cache = drop_cache name p.dir_cache }

-- The old directory of the function is removed.
abbrev pub remove_old : Option CacheEntry → ℕ → HandlerPuller → HandlerPuller
remove_old none path p = p
remove_old (some old) path p = if old.path == path then p else remove_all old.path p

abbrev pub store : Text → Option ℕ → ℕ → HandlerPuller → HandlerPuller
store name version path p = record p {
  dir_cache = (name, record { version = version; path = path }) ∷ drop_cache name p.dir_cache;
}

unfoldable pub put_cache : Text → Option ℕ → ℕ → HandlerPuller → HandlerPuller
put_cache name version path p =
    store name version path (remove_old (get_cache name p.dir_cache) path p)

-- `pullFromBlob` once the reader is open. A copy that fails leaves its file.
abbrev pub unpack : Text → ℕ → Answers → HandlerPuller → Pulled
unpack name v a p =
    let d = suc p.next_dir_id in
    if a.tmp_ok
    then (if a.copy_ok
        then (if a.mkdir_ok
            then (if a.tar_ok
                then pulled d
                    (record p { next_dir_id = d; dirs = update p.dirs d (some (code name v)) })
                else fails (record p { next_dir_id = d; dirs = update p.dirs d (some partial) }))
            else fails (record p { next_dir_id = d }))
        else fails (record p { tmp_files = suc p.tmp_files }))
    else fails p

unfoldable pub pull_from_blob : Text → Blob → Answers → HandlerPuller → Pulled
pull_from_blob name not_found a p = fails p
pull_from_blob name unreadable a p = fails p
pull_from_blob name (found v) a p = unpack name v a p

abbrev pub after_pull : Text → Option ℕ → Pulled → Pulled
after_pull name version (fails p) = fails p
after_pull name version (pulled d p) = pulled d (put_cache name version d p)

-- Whether the entry has the version that the store has now.
abbrev pub is_current : Option ℕ → Option ℕ → Bool
is_current none v = false
is_current (some now) none = false
is_current (some now) (some v) = v == now

abbrev pub serve : Text → Option CacheEntry → Answers → HandlerPuller → Pulled
serve name none a p = after_pull name a.mod_time (pull_from_blob name a.blob a p)
serve name (some e) a p =
    if is_current a.mod_time e.version
    then pulled e.path p
    else after_pull name a.mod_time (pull_from_blob name a.blob a p)

unfoldable pub pull : Text → Answers → HandlerPuller → Pulled
pull name a p =
    if validate_function_name name then serve name (get_cache name p.dir_cache) a p else fails p

abbrev pub new_handler_puller : HandlerPuller
new_handler_puller = record {
  dir_cache = [];
  dirs = λ (d : ℕ). none;
  next_dir_id = 1000;
  tmp_files = 0;
}

-- The end of `pullHandlerIfStale` in lambdaFunction.go, where the directory that was just pulled could
-- not be set up. The entry of a native function stays.
abbrev pub give_up : Runtime → Text → Option CacheEntry → HandlerPuller → HandlerPuller
give_up runtime name none p = p
give_up python name (some e) p = reset name (remove_all e.path p)
give_up native name (some e) p = remove_all e.path p

-- Calls by the tasks of the functions.
pub data Call : Type 0 where
  pulls : Text → Answers → Call
  gives_up : Runtime → Text → Call

abbrev pub state_of : Pulled → HandlerPuller
state_of (pulled d p) = p
state_of (fails p) = p

unfoldable pub step : Call → HandlerPuller → HandlerPuller
step (pulls name a) p = state_of (pull name a p)
step (gives_up runtime name) p = give_up runtime name (get_cache name p.dir_cache) p

unfoldable pub run : List Call → HandlerPuller → HandlerPuller
run [] p = p
run (c ∷ cs) p = run cs (step c p)
