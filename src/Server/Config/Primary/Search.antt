-- ===== src/Server/Config/Primary/Search.antt =====
-- What the search for the primary plugin finds.
use mathlib.Core.Path.{subst}
use mathlib.Core.List.{Memᴰ}
use mathlib.Core.List.Memᴰ.{head, tail, not-nil}
use Prim.Native.String.{[], ◌∷◌}
use multus_cni.Base.{
  ℕ, zero, suc, ◌≤◌, String, ◌≡◌, ◌⊎◌, refl, sym, ap, ◌∙◌, Bool, Bool-cases, inl, inr, true, false,
  List, [], ◌∷◌, nat_eq, string_eq, if◌then◌else◌, All, arith,
}
use multus_cni.Base.Result.{Result, ok, err, panic, ok-injective}
use multus_cni.Server.Config.Primary.{
  is_plugin_config, plugin_configs, before, insert_sorted, sort, first_of, listed,
  find_master_plugin,
}

before_refl : (s : String) → before s s ≡ true
unfolding before
before_refl [] = refl
before_refl (c ∷ s) = ground (arith, before_refl s)

before-total : (s t : String) → before s t ≡ false → before t s ≡ true
unfolding before
before-total [] t h = cc
before-total (c ∷ s) [] h = refl
before-total (c ∷ s) (d ∷ t) h = ground (arith, before-total s t, h)

before_trans : (s t u : String) → before s t ≡ true → before t u ≡ true → before s u ≡ true
unfolding before
before_trans [] t u h g = refl
before_trans (c ∷ s) [] u h g = cc
before_trans (c ∷ s) (d ∷ t) [] h g = cc
before_trans (c ∷ s) (d ∷ t) (e ∷ u) h g = ground (arith, before_trans s t u, h, g)

-- A text that stands in a list and before all its texts.
abbrev pub IsLeast : String → List String → Type 0
IsLeast s names = Memᴰ s names × All (λ t. before s t ≡ true) names

-- A list begins with the least text of another, or both are empty.
abbrev Leads : List String → List String → Type 0
Leads [] names = names ≡ []
Leads (s ∷ sorted) names = IsLeast s names

All-trans :
    (s t : String) (names : List String)
    → before s t ≡ true
    → All (λ u. before t u ≡ true) names
    → All (λ u. before s u ≡ true) names
All-trans s t [] h all = tt
All-trans s t (u ∷ names) h (g, all) = (before_trans s t u h g, All-trans s t names h all)

insert_sorted-Leads :
    (s : String) (sorted names : List String)
    → Leads sorted names
    → Leads (insert_sorted s sorted) (s ∷ names)
unfolding insert_sorted
insert_sorted-Leads s [] names e =
    (head refl, (before_refl s, subst (All (λ u. before s u ≡ true)) (sym e) tt))
insert_sorted-Leads s (t ∷ sorted) names (m, all) = elim (Bool-cases (before s t)) [
  | inl h ↦ rw h (head refl, (before_refl s, All-trans s t names h all))
  | inr h ↦ rw h (tail m, (before-total s t h, all))
]

sort-Leads : (names : List String) → Leads (sort names) names
unfolding sort
sort-Leads [] = refl
sort-Leads (s ∷ names) = insert_sorted-Leads s (sort names) names (sort-Leads names)

-- The plugin configurations are exactly the names that are such.
kept_in :
    (n : String) (names more : List String) (b : Bool) {name : String}
    → is_plugin_config n ≡ b
    → (Memᴰ name more → Memᴰ name names × (is_plugin_config name ≡ true))
    → Memᴰ name (if b then n ∷ more else more)
    → Memᴰ name (n ∷ names) × (is_plugin_config name ≡ true)
kept_in n names more true e rest (head p) = (head p, ap is_plugin_config p ∙ e)
kept_in n names more true e rest (tail m) = let (i, c) = rest m in (tail i, c)
kept_in n names more false e rest m = let (i, c) = rest m in (tail i, c)

plugin_configs-Memᴰ :
    (names : List String) {name : String}
    → Memᴰ name (plugin_configs names)
    → Memᴰ name names × (is_plugin_config name ≡ true)
unfolding plugin_configs
plugin_configs-Memᴰ [] m = elim m [ ]
plugin_configs-Memᴰ (n ∷ names) m =
    kept_in n names (plugin_configs names) (is_plugin_config n) refl (plugin_configs-Memᴰ names) m

Memᴰ-plugin_configs :
    (names : List String) (name : String)
    → is_plugin_config name ≡ true
    → Memᴰ name names
    → Memᴰ name (plugin_configs names)
unfolding plugin_configs
Memᴰ-plugin_configs [] name c m = elim m [ ]
Memᴰ-plugin_configs (n ∷ names) name c (head p) = rw (sym (ap is_plugin_config p) ∙ c) (head p)
Memᴰ-plugin_configs (n ∷ names) name c (tail m) = elim (Bool-cases (is_plugin_config n)) [
  | inl h ↦ rw h (tail (Memᴰ-plugin_configs names name c m))
  | inr h ↦ rw h (Memᴰ-plugin_configs names name c m)
]

-- A configuration is found among some names: it is one of them, and the least of their plugin
-- configurations.
abbrev pub IsFound : String → List String → Type 0
IsFound name names =
    Memᴰ name names
    × (is_plugin_config name ≡ true)
    × All (λ t. before name t ≡ true) (plugin_configs names)

first_of-IsFound :
    (names sorted : List String) (later : Result String) (name : String)
    → Leads sorted (plugin_configs names)
    → first_of sorted later ≡ ok name
    → IsFound name names ⊎ (later ≡ ok name)
unfolding first_of
first_of-IsFound names [] later name least e = inr e
first_of-IsFound names (s ∷ sorted) later name (m, all) e =
    let (i, c) = plugin_configs-Memᴰ names m in
    inl (subst (λ t. IsFound t names) (ok-injective e) (i, c, all))

module _ (read_dir : ℕ → Result (List String)) (path : String) where
  -- Some listing of the directory holds the configuration.
  abbrev pub IsListed : String → ℕ → Type 0
  IsListed name tries =
      (k : ℕ) × (names : List String) × (k ≤ tries) × (read_dir k ≡ ok names) × IsFound name names

  listed-IsListed :
      (tries : ℕ) (name : String) (r : Result (List String)) (later : Result String)
      → read_dir (suc tries) ≡ r
      → (later ≡ ok name → IsListed name tries)
      → listed r later ≡ ok name
      → IsListed name (suc tries)
  unfolding listed
  listed-IsListed tries name (ok names) later e rest h =
      elim (first_of-IsFound names (sort (plugin_configs names)) later name
        (sort-Leads (plugin_configs names)) h) [
          | inl found ↦ (suc tries, names, omega arith, e, found)
          | inr g ↦
              let (k, names', le, e', found) = rest g in (k, names', omega (arith, le), e', found)
        ]
  listed-IsListed tries name (err f) later e rest h = cc
  listed-IsListed tries name panic later e rest h = cc

  -- The configuration that the search for the primary plugin yields was listed at one of its tries: it
  -- has the extension of a plugin configuration and is none of Multus's own, and it is the first of
  -- such names in the order of their characters.
  find_master_plugin-IsListed :
      (tries : ℕ) (name : String)
      → find_master_plugin read_dir path tries ≡ ok name
      → IsListed name tries
  unfolding find_master_plugin
  find_master_plugin-IsListed zero name h = cc
  find_master_plugin-IsListed (suc tries) name h =
      listed-IsListed tries name (read_dir (suc tries)) (find_master_plugin read_dir path tries)
        refl (find_master_plugin-IsListed tries name) h

first_of-finds :
    (sorted names : List String) (name : String) (later : Result String)
    → Leads sorted names
    → Memᴰ name names
    → (found : String) × (first_of sorted later ≡ ok found)
unfolding first_of
first_of-finds [] names name later e m = absurd (not-nil (subst (Memᴰ name) e m))
first_of-finds (s ∷ sorted) names name later least m = (s, refl)

first_of-returns :
    (sorted : List String) (later : Result String) {found : String}
    → later ≡ ok found
    → (found' : String) × (first_of sorted later ≡ ok found')
unfolding first_of
first_of-returns [] later {found} e = (found, e)
first_of-returns (s ∷ sorted) later e = (s, refl)

find_master_plugin-returns :
    (lists : ℕ → List String) (path : String) (tries k : ℕ) (name : String)
    → suc k ≤ tries
    → Memᴰ name (lists (suc k))
    → is_plugin_config name ≡ true
    → (found : String) × (find_master_plugin (λ j. ok (lists j)) path tries ≡ ok found)
unfolding find_master_plugin listed
find_master_plugin-returns lists path zero k name le m c = absurd (omega (arith, le))
find_master_plugin-returns lists path (suc tries) k name le m c = elim (nat_eq.dec k tries) [
  | yes e ↦
      first_of-finds (sort (plugin_configs (lists (suc tries))))
        (plugin_configs (lists (suc tries))) name
        (find_master_plugin (λ j. ok (lists j)) path tries)
        (sort-Leads (plugin_configs (lists (suc tries))))
        (Memᴰ-plugin_configs (lists (suc tries)) name c
          (subst (λ j. Memᴰ name (lists (suc j))) e m))
  | no n ↦
      let (found, e) =
        find_master_plugin-returns lists path tries k name (ground (arith, n, le)) m c in
      first_of-returns (sort (plugin_configs (lists (suc tries))))
        (find_master_plugin (λ j. ok (lists j)) path tries) e
]

-- The search for the primary plugin ends with a configuration, where every listing succeeds and the
-- one at some try holds a plugin configuration. What it ends with was listed at one of the tries: it
-- has the extension of a plugin configuration and is none of Multus's own, and it is the first of
-- such names in the order of their characters.
pub find_master_plugin-finds :
    (lists : ℕ → List String) (path : String) (tries k : ℕ) (name : String)
    → suc k ≤ tries
    → Memᴰ name (lists (suc k))
    → is_plugin_config name ≡ true
    → (found : String) × (find_master_plugin (λ j. ok (lists j)) path tries ≡ ok found)
      × IsListed (λ j. ok (lists j)) path found tries
find_master_plugin-finds lists path tries k name le m c =
    let (found, e) = find_master_plugin-returns lists path tries k name le m c in
    (found, e, find_master_plugin-IsListed (λ j. ok (lists j)) path tries found e)
