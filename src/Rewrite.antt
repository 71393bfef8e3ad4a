-- ===== src/Rewrite.antt =====
-- Command rewriting (src/rtk_hermes_plus/rewrite.py): the cache, least recently used first, with a
-- time to live, and `Rewriter.rewrite` around the external `rtk` process.
pub mod Bounds
pub mod Answers
use token_terminator.Common.{
  ℕ, suc, ◌+◌, ◌-◌, String, ◌+++◌, Bool, true, false, ◌&&◌, ◌||◌, not, Option, none, some, List, [],
  ◌∷◌, ◌++◌, length, ltb, ◌==◌, if◌then◌else◌, str_eq, strip,
}
use token_terminator.Metrics.{Counts, add}

-- A process's return code, which is negative where a signal ended it.
pub data Code : Type 0 where
  code minus : ℕ → Code

-- `RewriteResult`, with whole milliseconds
pub record Rewritten : Type 0 where
  pub command : Option String
  pub returncode : Code
  pub elapsed_ms : ℕ
  pub cache_hit : Bool

pub record Item : Type 0 where
  pub key : String
  pub created : ℕ
  pub result : Rewritten

-- `RewriteCache`: the ordered dictionary, oldest first. Times are ticks of the monotonic clock.
pub record Cache : Type 0 where
  pub max_size : ℕ
  pub ttl : ℕ
  pub items : List Item

unfoldable pub find_item : String → List Item → Option Item
find_item key [] = none
find_item key (i ∷ is) = if str_eq i.key key then some i else find_item key is

-- self._items.pop(key, None)
unfoldable pub remove : String → List Item → List Item
remove key [] = []
remove key (i ∷ is) = if str_eq i.key key then is else i ∷ remove key is

unfoldable pub get : ℕ → String → Cache → Option Rewritten × Cache
get now key c = elim (find_item key c.items) [
  | none ↦ (none, c)
  | some i ↦
      if ltb c.ttl (now - i.created) then (none, record c { items = remove key c.items }) else (
        some (record i.result { cache_hit = true }),
        record c { items = remove key c.items ++ i ∷ [] },
      )
]

-- while len(self._items) > self.max_size: self._items.popitem(last=False)
unfoldable pub trim : ℕ → List Item → List Item
trim max_size [] = []
trim max_size (i ∷ is) =
    let rest = trim max_size is in if ltb max_size (suc (length is)) then rest else i ∷ is

-- The assignment and `move_to_end` together put the item last, in the place of one of its key.
unfoldable pub put : ℕ → String → Rewritten → Cache → Cache
put now key result c = record c {
  items =
      trim c.max_size
        (remove key c.items ++ record { key = key; created = now; result = result } ∷ []);
}

-- What the external process did: it printed and ended, ran out of time, or could not be started.
pub data Outcome : Type 0 where
  completed : String → Code → Outcome
  timed_out failed : Outcome

-- The fields of a `Rewriter` that change.
pub record Rewriter : Type 0 where
  pub cache : Cache
  pub metrics : Counts

abbrev pub tallied : String → ℕ → Rewriter → Rewriter
tallied key amount r = record r { metrics = add key amount r.metrics }

-- returncode in {0, 3}
unfoldable pub is_accepted : Code → Bool
is_accepted (code n) = n == 0 || n == 3
is_accepted (minus n) = n == 0

-- The command that `_result_from_output` takes from the output
unfoldable pub command_out : String → String → Code → Option String
command_out command stdout returncode =
    if is_accepted returncode
      && not (str_eq (strip stdout) "")
      && not (str_eq (strip stdout) command)
    then some (strip stdout)
    else none

-- `_result_from_output`
unfoldable pub result_from_output :
    ℕ → String → String → String → Code → ℕ → Rewriter → Rewritten × Rewriter
result_from_output now command key stdout returncode elapsed r =
    let timed = tallied "rewrite_total_ms" elapsed r in
    let result : Rewritten = record {
      command = command_out command stdout returncode;
      returncode = returncode;
      elapsed_ms = elapsed;
      cache_hit = false;
    } in
    (result, record timed { cache = put now key result timed.cache })

abbrev pub no_rewrite : ℕ → Rewritten
no_rewrite elapsed = record {
  command = none;
  returncode = minus 1;
  elapsed_ms = elapsed;
  cache_hit = false;
}

-- What follows a cache miss
unfoldable pub run_rewrite : ℕ → String → String → Outcome → ℕ → Rewriter → Rewritten × Rewriter
run_rewrite now command key (completed stdout returncode) elapsed r =
    result_from_output now command key stdout returncode elapsed (tallied "rewrite_attempted" 1 r)
run_rewrite now command key timed_out elapsed r = (
  no_rewrite elapsed,
  tallied "rewrite_timeouts" 1
      (tallied "rewrite_total_ms" elapsed (tallied "rewrite_attempted" 1 r)),
)
run_rewrite now command key failed elapsed r = (
  no_rewrite elapsed,
  tallied "rewrite_errors" 1 (tallied "rewrite_total_ms" elapsed (tallied "rewrite_attempted" 1 r)),
)

-- `_cache_key`, of the working directory as `resolve` gives it
unfoldable pub cache_key : String → String → String
cache_key command cwd = cwd +++ "\0" +++ command

-- `Rewriter.rewrite`: `outcome` and `elapsed` are the process's, looked at on a miss only.
unfoldable pub rewrite : ℕ → String → String → Outcome → ℕ → Rewriter → Rewritten × Rewriter
rewrite now command cwd outcome elapsed r =
    let key = cache_key command cwd in
    let (cached, cache) = get now key r.cache in
    let looked = record r { cache = cache } in
    elim cached [
      | some result ↦ (result, tallied "rewrite_cache_hits" 1 looked)
      | none ↦ run_rewrite now command key outcome elapsed looked
    ]
