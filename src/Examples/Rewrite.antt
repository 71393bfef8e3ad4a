-- ===== src/Examples/Rewrite.antt =====
-- Tests of the rewrite cache, with room for two commands.
use token_terminator.Common.{
  ◌-◌, String, ◌≡◌, refl, true, false, none, some, [], ◌∷◌, arith, ltb, if◌then◌else◌,
}
use token_terminator.Rewrite.{
  Code, code, Rewritten, Cache, get, put, find_item, completed, Rewriter,
}
use token_terminator.Rewrite.Bounds.{IsBounded, cache-IsBounded, get-put, new_item}

abbrev quiet : Rewritten
quiet = record {
  command = some "pytest -q";
  returncode = code 0;
  elapsed_ms = 7;
  cache_hit = false;
}

abbrev cache : Cache
cache = record { max_size = 2; ttl = 10; items = new_item 1 "a" quiet ∷ new_item 2 "b" quiet ∷ [] }

cache_full-IsBounded : IsBounded cache
unfolding find_item
cache_full-IsBounded = record { distinct = (refl, (refl, tt)); few = omega arith }

cache-IsBounded_example : IsBounded (get 3 "a" cache).1 × IsBounded (put 3 "a" quiet cache)
cache-IsBounded_example = cache-IsBounded 3 "a" quiet cache cache_full-IsBounded

get-put_example :
    (get 13 "c" (put 3 "c" quiet cache)).0
    ≡ (if ltb 10 (13 - 3) then none else some (record quiet { cache_hit = true }))
get-put_example = get-put 3 13 "c" quiet cache cache_full-IsBounded (omega arith)

abbrev rewriter : Rewriter
rewriter = record { cache = record cache { items = [] }; metrics = [] }

-- The one process of the test
abbrev Ran : String → String → Code → Type 0
Ran key stdout returncode = completed stdout returncode ≡ completed "pytest -q\n" (code 3)
