-- ===== src/Storage/Cache/Budget.antt =====
-- storage/cache.py: the cache stays within its budget, and serves what was put.
use ach_agent.Base.{
  ℕ, ◌-◌, ◌≤◌, String, Bool, true, false, ◌||◌, Option, none, some, List, [], ◌∷◌, ◌≡◌, refl, arith,
  ◌==◌, ==_iff, ==_refl, string_eq, leb, ltb, inl, inr, if_cases, Option-cases, ◌∙◌,
}
use ach_agent.Base.Dict.{
  Dict, has, get, put, remove, items, weigh, Within, Within-map, Apart, items-Within, items-Apart,
  within_get, get-put_self, get-remove, sum-put, sum-remove, sum_zero,
}
use ach_agent.Base.Lists.{length}
use ach_agent.Storage.Cache.{
  Bytes, Digests, Entry, Cache, cache_key, size, total_size, insert_by_mtime, sort_by_mtime, evict,
  evict_over_budget, serve, get_cached, Disk, writes, fails, publish, put_cached, Request, gets,
  puts, serve_all,
}

-- Whether a list has an entry for a name.
listed : String → List (String × Entry) → Bool
listed name [] = false
listed name ((k, e) ∷ rest) = k == name || listed name rest

module _ (P : String → Entry → Type 0) where
  insert_by_mtime-Within :
      (x : String × Entry) (q : List (String × Entry))
      → P x.0 x.1
      → Within P q
      → Within P (insert_by_mtime x q)
  unfolding insert_by_mtime
  insert_by_mtime-Within x [] p w = (p, tt)
  insert_by_mtime-Within x (y ∷ ys) p w =
      if_cases (Within P) (leb (x.1).mtime (y.1).mtime) _ _ (λ _. (p, w))
        (λ _. (w.0, insert_by_mtime-Within x ys p w.1))

  sort_by_mtime-Within : (q : List (String × Entry)) → Within P q → Within P (sort_by_mtime q)
  unfolding sort_by_mtime
  sort_by_mtime-Within [] w = tt
  sort_by_mtime-Within (x ∷ xs) w =
      insert_by_mtime-Within x (sort_by_mtime xs) w.0 (sort_by_mtime-Within xs w.1)

insert_by_mtime-Apart :
    (x : String × Entry) (q : List (String × Entry)) → Apart (x ∷ q) → Apart (insert_by_mtime x q)
unfolding insert_by_mtime
insert_by_mtime-Apart x [] a = a
insert_by_mtime-Apart x (y ∷ ys) a =
    if_cases Apart (leb (x.1).mtime (y.1).mtime) _ _ (λ _. a)
      (λ _. (
        insert_by_mtime-Within (λ j w. (j == y.0) ≡ false) x ys
            (ground (arith, a.0.0, ==_iff x.0 y.0, ==_iff y.0 x.0)) a.1.0,
        insert_by_mtime-Apart x ys (a.0.1, a.1.1),
      ))

sort_by_mtime-Apart : (q : List (String × Entry)) → Apart q → Apart (sort_by_mtime q)
unfolding sort_by_mtime
sort_by_mtime-Apart [] a = tt
sort_by_mtime-Apart (x ∷ xs) a =
    insert_by_mtime-Apart x (sort_by_mtime xs)
      (sort_by_mtime-Within (λ j w. (j == x.0) ≡ false) xs a.0, sort_by_mtime-Apart xs a.1)

listed-insert_by_mtime :
    (name : String) (x : String × Entry) (q : List (String × Entry))
    → listed name (insert_by_mtime x q) ≡ listed name (x ∷ q)
unfolding listed insert_by_mtime
listed-insert_by_mtime name x [] = refl
listed-insert_by_mtime name x (y ∷ ys) = ground (arith, listed-insert_by_mtime name x ys)

listed-sort_by_mtime :
    (name : String) (q : List (String × Entry)) → listed name (sort_by_mtime q) ≡ listed name q
unfolding listed sort_by_mtime
listed-sort_by_mtime name [] = refl
listed-sort_by_mtime name ((k, e) ∷ xs) =
    ground
      (arith, listed-insert_by_mtime name (k, e) (sort_by_mtime xs), listed-sort_by_mtime name xs)

-- An entry that a table has is among the items.
listed-items : (name : String) (q : List (String × Entry)) → Within (λ k e. listed k q ≡ true) q
unfolding listed
listed-items name [] = tt
listed-items name ((k, e) ∷ q) =
    (ground (arith, ==_refl k), Within-map q (λ j w h. ground (arith, h)) (listed-items name q))

-- The loop's invariant, with the entries that it has still to look at.
record Evicting (most : ℕ) (keep : String) (q : List (String × Entry)) (total : ℕ)
    (files : Dict String Entry) : Type 0 where
  counted : total ≡ total_size files
  current : Within (λ name e. get name files ≡ some e) q
  apart : Apart q
  covers : (name : String) → has name files ≡ true → (name == keep || listed name q) ≡ true
  room : weigh (λ name e. size e) keep (get keep files) ≤ most

Evicting-skip :
    (most : ℕ) (keep name : String) (e : Entry) (q : List (String × Entry)) (total : ℕ)
    (files : Dict String Entry)
    → (name == keep) ≡ true
    → Evicting most keep ((name, e) ∷ q) total files
    → Evicting most keep q total files
unfolding listed
Evicting-skip most keep name e q total files h v = record {
  counted = v.counted;
  current = v.current.1;
  apart = v.apart.1;
  covers =
      λ k held. ground (arith, v.covers k held, h, ==_iff name keep, ==_iff name k, ==_iff k keep);
  room = v.room;
}

-- The entries whose name is not the removed one are still there.
still_there :
    (name : String) (q : List (String × Entry)) (files : Dict String Entry)
    → Within (λ j e. (j == name) ≡ false) q
    → Within (λ j e. get j files ≡ some e) q
    → Within (λ j e. get j (remove name files) ≡ some e) q
still_there name [] files a c = tt
still_there name ((j, e) ∷ q) files a c = (
  ground (arith, a.0, c.0, get-remove name j files, ==_iff j name, ==_iff name j),
  still_there name q files a.1 c.1,
)

Evicting-remove :
    (most : ℕ) (keep name : String) (e : Entry) (q : List (String × Entry)) (total : ℕ)
    (files : Dict String Entry)
    → (name == keep) ≡ false
    → Evicting most keep ((name, e) ∷ q) total files
    → Evicting most keep q (total - size e) (remove name files)
unfolding listed
Evicting-remove most keep name e q total files h v = record {
  counted = ground (arith, v.counted, v.current.0, sum-remove (λ name e. size e) name files);
  current = still_there name q files v.apart.0 v.current.1;
  apart = v.apart.1;
  covers = λ k held. ground (arith, v.covers k, held, get-remove name k files);
  room = ground (arith, v.room, h, get-remove name keep files);
}

evict-Bounded :
    (most : ℕ) (keep : String) (q : List (String × Entry)) (total : ℕ) (files : Dict String Entry)
    → Evicting most keep q total files
    → total_size (evict most keep q total files) ≤ most
unfolding evict listed
evict-Bounded most keep [] total files v =
    let others : total_size (remove keep files) ≡ 0 =
      sum_zero (λ name e. size e) (remove keep files)
        (λ name e h. absurd (
          ground (
            arith,
            h,
            v.covers name,
            get-remove keep name files,
            ==_iff name keep,
            ==_iff keep name,
          ))) in
    omega (arith, others, v.room, sum-remove (λ name e. size e) keep files)
evict-Bounded most keep ((name, e) ∷ q) total files v =
    if_cases Bounded (leb total most) _ _ (λ fits. ground (arith, v.counted))
      λ _.
        if_cases Bounded (name == keep) _ _
          (λ h.
            evict-Bounded most keep q total files
              (Evicting-skip most keep name e q total files h v))
          (λ h.
            evict-Bounded most keep q (total - size e) (remove name files)
              (Evicting-remove most keep name e q total files h v))
  where
    Bounded : Dict String Entry → Type 0
    Bounded files' = total_size files' ≤ most

-- Every file is among the entries that the loop looks at.
listed_at :
    (name : String) (files : Dict String Entry)
    → has name files ≡ true
    → listed name (items files) ≡ true
listed_at name files held = elim (Option-cases (get name files)) [
  | inl e ↦ absurd (ground (arith, held, e))
  | inr (x, e) ↦
      within_get (λ k y. listed k (items files) ≡ true) name x files
        (listed-items name (items files)) e
]

evict_over_budget-Bounded :
    (keep : String) (c : Cache)
    → weigh (λ name e. size e) keep (get keep c.files) ≤ c.max_bytes
    → total_size (evict_over_budget keep c).files ≤ c.max_bytes
unfolding evict_over_budget
evict_over_budget-Bounded keep c room =
    evict-Bounded c.max_bytes keep (sort_by_mtime (items c.files)) (total_size c.files) c.files
      (record {
        counted = refl;
        current =
            sort_by_mtime-Within (λ name e. get name c.files ≡ some e) (items c.files)
              (items-Within c.files);
        apart = sort_by_mtime-Apart (items c.files) (items-Apart c.files);
        covers = λ name held.
            ground (arith, listed-sort_by_mtime name (items c.files), listed_at name c.files held);
        room = room;
      })

-- The file that was just written is not evicted.
evict_keeps :
    (most : ℕ) (keep : String) (q : List (String × Entry)) (total : ℕ) (files : Dict String Entry)
    → get keep (evict most keep q total files) ≡ get keep files
unfolding evict
evict_keeps most keep [] total files = refl
evict_keeps most keep ((name, e) ∷ q) total files =
    if_cases Kept (leb total most) _ _ (λ _. refl)
      λ _.
        if_cases Kept (name == keep) _ _ (λ _. evict_keeps most keep q total files)
          (λ h.
            evict_keeps most keep q (total - size e) (remove name files)
            ∙ ground (arith, h, get-remove name keep files))
  where
    Kept : Dict String Entry → Type 0
    Kept files' = get keep files' ≡ get keep files

-- The cache is within its budget.
abbrev pub Bounded : ℕ → Cache → Type 0
Bounded most c = (c.max_bytes ≡ most) × (total_size c.files ≤ most)

publish-Bounded :
    (disk : Disk) (name tmp : String) (content : Bytes) (now most : ℕ) (c : Cache)
    → length content ≤ most
    → Bounded most c
    → Bounded most (publish disk name tmp content now c)
unfolding publish evict_over_budget
publish-Bounded fails name tmp content now most c fits b = b
publish-Bounded writes name tmp content now most c fits b =
    let e : Entry = record { content = content; mtime = now } in
    let written : Cache = record {
      max_bytes = most;
      files = put name e c.files;
      temporaries = c.temporaries;
    } in
    (b.0, rw (b.0) (evict_over_budget-Bounded name written (rw (get-put_self name e c.files) fits)))

put_cached-Bounded :
    (h : Digests) (disk : Disk) (suffix key : String) (version : ℕ) (content : Bytes) (now most : ℕ)
    (c : Cache)
    → Bounded most c
    → Bounded most (put_cached h disk suffix key version content now c)
unfolding put_cached
put_cached-Bounded h disk suffix key version content now most c b =
    if_cases (Bounded most) (ltb c.max_bytes (length content)) c _ (λ _. b)
      (λ fits. publish-Bounded disk _ _ content now most c (ground (arith, fits, b.0)) b)

serve-Bounded :
    (h : Digests) (name checksum : String) (now most : ℕ) (o : Option Entry) (c : Cache)
    → get name c.files ≡ o
    → Bounded most c
    → Bounded most (serve h name checksum now o c).0
unfolding serve
serve-Bounded h name checksum now most none c e b = b
serve-Bounded h name checksum now most (some x) c e b =
    if_cases After (ltb c.max_bytes (size x)) _ _ (λ _. without)
      λ _.
        if_cases After (h.sha256_bytes x.content == checksum) _ _
          (λ _. (
            b.0,
            ground
                (arith, b.1, e, sum-put (λ name e. size e) name (record x { mtime = now }) c.files),
          ))
          (λ _. without)
  where
    After : Cache × Option Bytes → Type 0
    After (c', answer) = Bounded most c'

    without : Bounded most (record c { files = remove name c.files })
    without = (b.0, ground (arith, b.1, e, sum-remove (λ name e. size e) name c.files))

-- A cache that starts within its budget of bytes is within it after any requests, whichever writes
-- fail: the sizes of its files add up to at most `max_bytes`.
pub serve_all-Bounded :
    (h : Digests) (most : ℕ) (requests : List Request) (c : Cache)
    → Bounded most c
    → Bounded most (serve_all h requests c)
unfolding serve_all get_cached
serve_all-Bounded h most [] c b = b
serve_all-Bounded h most (gets key version checksum now ∷ later) c b =
    serve_all-Bounded h most later _
      (serve-Bounded h (cache_key h key version) checksum now most _ c refl b)
serve_all-Bounded h most (puts disk suffix key version content now ∷ later) c b =
    serve_all-Bounded h most later _
      (put_cached-Bounded h disk suffix key version content now most c b)

-- What a `put` that fits and is written leaves at its file name.
record Written (name : String) (e : Entry) (c c' : Cache) : Type 0 where
  there : get name c'.files ≡ some e
  max_bytes : c'.max_bytes ≡ c.max_bytes

publish-Written :
    (name tmp : String) (content : Bytes) (now : ℕ) (c : Cache)
    → Written name
        (record { content = content; mtime = now })
        c
        (publish writes name tmp content now c)
unfolding publish evict_over_budget
publish-Written name tmp content now c =
    let e : Entry = record { content = content; mtime = now } in
    let files = put name e c.files in
    record {
      there =
          evict_keeps c.max_bytes name (sort_by_mtime (items files)) (total_size files) files
          ∙ get-put_self name e c.files;
      max_bytes = refl;
    }

put_cached-Written :
    (h : Digests) (suffix key : String) (version : ℕ) (content : Bytes) (now : ℕ) (c : Cache)
    → length content ≤ c.max_bytes
    → Written
        (cache_key h key version)
        (record { content = content; mtime = now })
        c
        (put_cached h writes suffix key version content now c)
unfolding put_cached
put_cached-Written h suffix key version content now c fits =
    if_cases (Written (cache_key h key version) (record { content = content; mtime = now }) c)
      (ltb c.max_bytes (length content)) c _ (λ large. absurd (ground (arith, fits, large)))
      (λ _. publish-Written (cache_key h key version) _ content now c)

serve-answers :
    (h : Digests) (name : String) (later : ℕ) (e : Entry) (o : Option Entry) (c : Cache)
    → o ≡ some e
    → size e ≤ c.max_bytes
    → (serve h name (h.sha256_bytes e.content) later o c).1 ≡ some e.content
unfolding serve
serve-answers h name later e none c found fits = absurd (ground (arith, found))
serve-answers h name later e (some x) c found fits =
    ground (arith, found, fits, ==_refl (h.sha256_bytes e.content))

-- A snapshot that fits the budget, once written, is what the next `get` of its key and version
-- answers under its own checksum, whatever `put` evicted.
pub get_cached-put_cached :
    (h : Digests) (suffix key : String) (version : ℕ) (content : Bytes) (now later : ℕ) (c : Cache)
    → length content ≤ c.max_bytes
    → (get_cached h key version
        (h.sha256_bytes content)
        later
        (put_cached h writes suffix key version content now c)).1
      ≡ some content
unfolding get_cached
get_cached-put_cached h suffix key version content now later c fits =
    let w = put_cached-Written h suffix key version content now c fits in
    serve-answers h (cache_key h key version) later (record { content = content; mtime = now }) _
      (put_cached h writes suffix key version content now c) w.there (rw (w.max_bytes) fits)

-- What `get` answers has the expected checksum and fits the budget.
pub get_cached-checked :
    (h : Digests) (key : String) (version : ℕ) (checksum : String) (now : ℕ) (c : Cache)
    (content : Bytes)
    → (get_cached h key version checksum now c).1 ≡ some content
    → (h.sha256_bytes content ≡ checksum) × (length content ≤ c.max_bytes)
unfolding get_cached
get_cached-checked h key version checksum now c content =
    by_file (get (cache_key h key version) c.files)
  where
    by_file :
        (o : Option Entry)
        → (serve h (cache_key h key version) checksum now o c).1 ≡ some content
        → (h.sha256_bytes content ≡ checksum) × (length content ≤ c.max_bytes)
    by_file none = unfold serve in λ e. absurd (ground (arith, e))
    by_file (some x) =
        unfold serve in λ e. ground (arith, e, ==_iff (h.sha256_bytes x.content) checksum)
