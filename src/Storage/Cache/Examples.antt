-- ===== src/Storage/Cache/Examples.antt =====
-- storage/cache.py: a cache of four bytes that two snapshots do not both fit.
use Prim.Native.String
use ach_agent.Base.{ℕ, ◌≤◌, String, List, [], ◌∷◌, ◌≡◌, refl, Option, some, none, arith, string_eq}
use ach_agent.Base.Dict.{Dict, empty, put, get, items, sum-empty}
use ach_agent.Storage.Cache.{
  Digests, Entry, Cache, Bytes, size, get_cached, put_cached, writes, fails, Request, gets, puts,
  serve_all,
}
use ach_agent.Storage.Cache.Budget.{
  Bounded, serve_all-Bounded, get_cached-put_cached, get_cached-checked,
}

written_out : Bytes → String
written_out [] = "."
written_out (b ∷ bytes) = String.◌++◌ "b" (written_out bytes)

abbrev readable : Digests
unfolding written_out
readable = record { sha256_text = λ text. text; sha256_bytes = written_out; str_nat = λ n. "1" }

abbrev four_bytes : Cache
four_bytes = record { max_bytes = 4; files = empty; temporaries = empty }

abbrev traffic : List Request
traffic =
    puts writes "u1" "one" 1 (1 ∷ 2 ∷ 3 ∷ []) 10
    ∷ puts writes "u2" "two" 1 (4 ∷ 5 ∷ []) 20
    ∷ gets "one" 1 "bbb." 30
    ∷ gets "two" 1 "bb." 40
    ∷ puts fails "u3" "three" 1 (6 ∷ []) 50
    ∷ []

serve_all-Bounded_example : Bounded 4 (serve_all readable traffic four_bytes)
serve_all-Bounded_example =
    serve_all-Bounded readable 4 traffic four_bytes
      (refl, omega (arith, sum-empty (λ (name : String) (e : Entry). size e)))

abbrev with_old : Cache
with_old = record {
  max_bytes = 4;
  files = put "old" (record { content = 9 ∷ 9 ∷ 9 ∷ []; mtime = 1 }) empty;
  temporaries = empty;
}

abbrev after_put : Cache
after_put = put_cached readable writes "u2" "two" 1 (4 ∷ 5 ∷ []) 20 with_old

test_evicts_old : get "old" after_put.files ≡ none
unfolding put_cached get put items readable ach_agent.Base.Dict.empty ach_agent.Base.Dict.sum
    ach_agent.Base.Dict.remove
test_evicts_old = refl

get_cached-put_cached_example :
    (get_cached readable "two" 1 (readable.sha256_bytes (4 ∷ 5 ∷ [])) 30 after_put).1
    ≡ some (4 ∷ 5 ∷ [])
get_cached-put_cached_example =
    get_cached-put_cached readable "u2" "two" 1 (4 ∷ 5 ∷ []) 20 30 with_old (omega arith)

get_cached-checked_example :
    (readable.sha256_bytes (4 ∷ 5 ∷ []) ≡ readable.sha256_bytes (4 ∷ 5 ∷ []))
    × (2 ≤ after_put.max_bytes)
get_cached-checked_example =
    get_cached-checked readable "two" 1 (readable.sha256_bytes (4 ∷ 5 ∷ [])) 30 after_put
      (4 ∷ 5 ∷ [])
      (get_cached-put_cached readable "u2" "two" 1 (4 ∷ 5 ∷ []) 20 30 with_old (omega arith))
