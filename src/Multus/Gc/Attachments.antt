-- ===== src/Multus/Gc/Attachments.antt =====
-- The attachments that CmdGC tells the plugins to keep.
use mathlib.Core.List.{Memᴰ}
use mathlib.Core.List.Memᴰ.{head, tail}
use multus_cni.Base.{
  All-Memᴰ, String, ◌≡◌, ◌≢◌, refl, inl, inr, Bool-cases, ◌||◌, Option, none, some, List, [], ◌∷◌,
  ◌==◌, string_eq, if◌then◌else◌, All, arith, ap, sym, ◌∙◌,
}
use multus_cni.Base.Result.{
  Result, ok, panic, ok-injective, Ensures, returns, fails, panics, Ensures-after, ◌>>=◌ as ◌then◌,
}
use multus_cni.Json.{Bytes}
use multus_cni.Types.{DelegateNetConf, NetConf, CmdArgs}
use multus_cni.K8sclient.Client.{Client}
use multus_cni.Multus.Host.{Host}
use multus_cni.Os.{Os, read_file}
use multus_cni.Multus.Gc.{
  Attachment, Operations, of_fault, first_delegate, gather_valid_attachments_from_cache, cmd_gc,
  require_names, get_valid_attachment_from_cache, pick, gather_entries,
}

abbrev pub attachment : String → String → Attachment
attachment id name = record { container_id = id; if_name = name }

-- A container and an interface are named.
abbrev pub IsNamed : Attachment → Type 0
IsNamed a = (a.container_id ≢ "") × (a.if_name ≢ "")

module _ (quote : String → String) (G : Operations) (os : Os) (dir : String) where
  entry : String → Result (String × String)
  entry name = read_file os (os.join (dir ∷ name ∷ [])) then get_valid_attachment_from_cache quote G

  -- An attachment that the file of a name holds is in the list.
  abbrev pub IsKept : List Attachment → String → Type 0
  IsKept kept name =
      (bytes : Bytes) (id if_name : String)
      → read_file os (os.join (dir ∷ name ∷ [])) ≡ ok bytes
      → G.cached_names bytes ≡ some (id, if_name)
      → IsNamed (attachment id if_name)
      → Memᴰ (attachment id if_name) kept

  require_names-IsNamed :
      (id if_name : String)
      → IsNamed (attachment id if_name)
      → require_names quote (some (id, if_name)) ≡ ok (id, if_name)
  unfolding require_names
  require_names-IsNamed id if_name (p, q) = ground (arith, p, q)

  require_names-Ensures :
      (o : Option (String × String))
      → Ensures (λ x. IsNamed (attachment x.0 x.1)) (require_names quote o)
  unfolding require_names
  require_names-Ensures none = fails
  require_names-Ensures (some (id, name)) = elim (Bool-cases (id == "" || name == "")) [
    | inl h ↦ rw h fails
    | inr h ↦ rw h (returns ((λ e. ground (arith, h, e)), (λ e. ground (arith, h, e))))
  ]

  entry-ok :
      (name : String) (bytes : Bytes) (id if_name : String)
      → read_file os (os.join (dir ∷ name ∷ [])) ≡ ok bytes
      → G.cached_names bytes ≡ some (id, if_name)
      → IsNamed (attachment id if_name)
      → entry name ≡ ok (id, if_name)
  unfolding entry get_valid_attachment_from_cache
  entry-ok name bytes id if_name read names named =
      rw (read, names) (require_names-IsNamed id if_name named)

  entry-Ensures : (name : String) → Ensures (λ x. IsNamed (attachment x.0 x.1)) (entry name)
  unfolding entry get_valid_attachment_from_cache
  entry-Ensures name =
      Ensures-after (read_file os (os.join (dir ∷ name ∷ [])))
        λ bytes. require_names-Ensures (G.cached_names bytes)

  entry-returns : (name : String) → entry name ≢ panic
  unfolding entry get_valid_attachment_from_cache require_names read_file
  entry-returns name h = ground arith

  -- What is gathered of some names.
  abbrev pub Gathers : List String → Type 0
  Gathers names =
      (kept : List Attachment) × (gather_entries quote G os dir names ≡ ok kept)
      × All IsNamed kept
      × All (IsKept kept) names

  All-IsKept-tail :
      (a : Attachment) (kept : List Attachment) (names : List String)
      → All (IsKept kept) names
      → All (IsKept (a ∷ kept)) names
  All-IsKept-tail a kept [] _ = tt
  All-IsKept-tail a kept (name ∷ names) (h, hs) = (
    (λ bytes id if_name read cached named. tail (h bytes id if_name read cached named)),
    All-IsKept-tail a kept names hs,
  )

  Gathers-more :
      (name : String) (names : List String) {x : Result (String × String)}
      → entry name ≡ x
      → Ensures (λ y. IsNamed (attachment y.0 y.1)) x
      → Gathers names
      → Gathers (name ∷ names)
  unfolding entry gather_entries pick
  Gathers-more name names e (returns {a = (id, if_name)} named) (kept, gathered, all, keeps) = (
    attachment id if_name ∷ kept,
    rw (e, gathered) refl,
    (named, all),
    (
      λ bytes id' name' read cached named'. head (
          ap (λ y. attachment y.0 y.1)
            (ok-injective (sym (entry-ok name bytes id' name' read cached named') ∙ e))),
      All-IsKept-tail (attachment id if_name) kept names keeps,
    ),
  )
  Gathers-more name names e fails (kept, gathered, all, keeps) = (
    kept,
    rw (e, gathered) refl,
    all,
    (
      λ bytes id' name' read cached named'.
          cc (entry-ok name bytes id' name' read cached named', e),
      keeps,
    ),
  )
  Gathers-more name names e panics _ = absurd (entry-returns name e)

  gather_entries-Gathers : (names : List String) → Gathers names
  unfolding gather_entries
  gather_entries-Gathers [] = ([], refl, tt, tt)
  gather_entries-Gathers (name ∷ names) =
      Gathers-more name names refl (entry-Ensures name) (gather_entries-Gathers names)

  gather_entries-keeps :
      (names : List String) (name : String) (bytes : Bytes) (id if_name : String)
      → Memᴰ name names
      → read_file os (os.join (dir ∷ name ∷ [])) ≡ ok bytes
      → G.cached_names bytes ≡ some (id, if_name)
      → IsNamed (attachment id if_name)
      → (kept : List Attachment) × (gather_entries quote G os dir names ≡ ok kept)
        × Memᴰ (attachment id if_name) kept
        × All IsNamed kept
  gather_entries-keeps names name bytes id if_name m read cached named =
      let (kept, gathered, all, keeps) = gather_entries-Gathers names in
      (kept, gathered, All-Memᴰ (IsKept kept) names keeps m bytes id if_name read cached named, all)

-- CmdGC keeps what is attached: where its configuration loads and the directory of the cache is listed, it
-- hands to the plugins of the first delegate a list of attachments and ends as they do. An attachment is in
-- this list if a listed file that can be read names its container and its interface, whatever the other
-- files hold; and each one of the list has a container and an interface.
pub cmd_gc-keeps :
    (H : Host) (G : Operations) (args : CmdArgs) (os : Os) (client : Option Client) (conf : NetConf)
    (d : DelegateNetConf) (names : List String) (name : String) (bytes : Bytes)
    (id if_name : String)
    → let dir = os.join (conf.cni_dir ∷ "results" ∷ []) in
      first_delegate H G args client ≡ ok (conf, d)
      → G.read_dir dir ≡ ok names
      → Memᴰ name names
      → read_file os (os.join (dir ∷ name ∷ [])) ≡ ok bytes
      → G.cached_names bytes ≡ some (id, if_name)
      → IsNamed (attachment id if_name)
      → (kept : List Attachment) × (cmd_gc H G args os client
          ≡ of_fault "error in GC command: " (G.gc_list d.bytes kept))
        × Memᴰ (attachment id if_name) kept
        × All IsNamed kept
unfolding cmd_gc gather_valid_attachments_from_cache
cmd_gc-keeps H G args os client conf d names name bytes id if_name loaded listed m read cached
      named =
    let dir = os.join (conf.cni_dir ∷ "results" ∷ []) in
    let (kept, gathered, holds, all) =
      gather_entries-keeps H.codec.quote G os dir names name bytes id if_name m read cached named in
    (kept, rw (loaded, listed, gathered) refl, holds, all)
