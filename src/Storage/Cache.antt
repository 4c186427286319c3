-- ===== src/Storage/Cache.antt =====
-- storage/cache.py: `BoundedCache`, the read cache of restored snapshots. The lock makes `get` and
-- `put` atomic. The cache's directory is a table from file names to contents and modification times;
-- the names hold no ".tmp-", so the private temporary files are a table of their own.
mod Examples
pub mod Budget
use Prim.Native.String
use ach_agent.Base.{
  ℕ, ◌+◌, ◌-◌, String, Bool, Option, none, some, List, [], ◌∷◌, leb, ltb, ◌==◌, string_eq,
  if◌then◌else◌,
}
use ach_agent.Base.Dict.{Dict, get, put, remove, items, sum}
use ach_agent.Base.Lists.{length}

abbrev pub Bytes : Type 0
Bytes = List ℕ

-- What the standard library's functions compute: the two uses of SHA-256, and the text of a number.
pub record Digests : Type 0 where
  pub sha256_text : String → String
  pub sha256_bytes : Bytes → String
  pub str_nat : ℕ → String

pub record Entry : Type 0 where
  pub content : Bytes
  pub mtime : ℕ

pub record Cache : Type 0 where
  pub max_bytes : ℕ
  pub files : Dict String Entry
  pub temporaries : Dict String Bytes

-- _cache_key, which names the file
unfoldable pub cache_key : Digests → String → ℕ → String
cache_key h registry_key version =
    h.sha256_text (String.◌++◌ registry_key (String.◌++◌ "@v" (h.str_nat version)))

-- p.stat().st_size
abbrev pub size : Entry → ℕ
size e = length e.content

abbrev pub total_size : Dict String Entry → ℕ
total_size files = sum (λ name e. size e) files

-- sorted(entries, key=lambda p: p.stat().st_mtime), which keeps the order of equal times
unfoldable pub insert_by_mtime : String × Entry → List (String × Entry) → List (String × Entry)
insert_by_mtime x [] = x ∷ []
insert_by_mtime x (y ∷ ys) =
    let later = insert_by_mtime x ys in
    if leb (x.1).mtime (y.1).mtime then x ∷ y ∷ ys else y ∷ later

unfoldable pub sort_by_mtime : List (String × Entry) → List (String × Entry)
unfolding insert_by_mtime
sort_by_mtime [] = []
sort_by_mtime (x ∷ xs) = insert_by_mtime x (sort_by_mtime xs)

-- the loop of _evict_over_budget
unfoldable pub evict :
    ℕ → String → List (String × Entry) → ℕ → Dict String Entry → Dict String Entry
evict max_bytes keep [] total files = files
evict max_bytes keep ((name, e) ∷ rest) total files =
    let skipped = evict max_bytes keep rest total files in
    let evicted = evict max_bytes keep rest (total - size e) (remove name files) in
    if leb total max_bytes then files else if name == keep then skipped else evicted

-- _evict_over_budget
unfoldable pub evict_over_budget : String → Cache → Cache
unfolding evict sort_by_mtime
evict_over_budget keep c = record c {
  files = evict c.max_bytes keep (sort_by_mtime (items c.files)) (total_size c.files) c.files;
}

-- the file that `get` finds at its path
unfoldable pub serve : Digests → String → String → ℕ → Option Entry → Cache → Cache × Option Bytes
serve h name expected_checksum now none c = (c, none)
serve h name expected_checksum now (some e) c =
    if ltb c.max_bytes (size e)
    then (record c { files = remove name c.files }, none)
    else if h.sha256_bytes e.content == expected_checksum
    then (record c { files = put name (record e { mtime = now }) c.files }, some e.content)
    else (record c { files = remove name c.files }, none)

-- BoundedCache.get at a time
unfoldable pub get_cached : Digests → String → ℕ → String → ℕ → Cache → Cache × Option Bytes
unfolding cache_key serve
get_cached h registry_key version expected_checksum now c =
    let name = cache_key h registry_key version in
    serve h name expected_checksum now (get name c.files) c

-- Whether the write of the temporary file and its renaming succeed, or one of them raises.
pub data Disk : Type 0 where
  writes fails : Disk

-- tmp.write_bytes(data)
abbrev temporary : String → Bytes → Cache → Cache
temporary tmp content c = record c { temporaries = put tmp content c.temporaries }

abbrev unlinked : String → Cache → Cache
unlinked tmp c = record c { temporaries = remove tmp c.temporaries }

unfoldable pub publish : Disk → String → String → Bytes → ℕ → Cache → Cache
unfolding evict_over_budget
publish fails name tmp content now c = unlinked tmp (temporary tmp content c)
publish writes name tmp content now c =
    let c' = unlinked tmp (temporary tmp content c) in
    evict_over_budget name
      (record c' { files = put name (record { content = content; mtime = now }) c'.files })

-- BoundedCache.put at a time, with the temporary file's random suffix
unfoldable pub put_cached : Digests → Disk → String → String → ℕ → Bytes → ℕ → Cache → Cache
unfolding cache_key publish
put_cached h disk suffix registry_key version content now c =
    if ltb c.max_bytes (length content)
    then c
    else (let name = cache_key h registry_key version in
        publish disk name (String.◌++◌ name (String.◌++◌ ".tmp-" suffix)) content now c)

-- What the storage asks of the cache.
pub data Request : Type 0 where
  gets : String → ℕ → String → ℕ → Request
  puts : Disk → String → String → ℕ → Bytes → ℕ → Request

unfoldable pub serve_all : Digests → List Request → Cache → Cache
unfolding get_cached put_cached
serve_all h [] c = c
serve_all h (gets key version checksum now ∷ later) c =
    serve_all h later (get_cached h key version checksum now c).0
serve_all h (puts disk suffix key version content now ∷ later) c =
    serve_all h later (put_cached h disk suffix key version content now c)
