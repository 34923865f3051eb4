-- ===== src/CertApprover/Decision/Trusted.antt =====
-- Which requests are approved.
use Prim.Native.Char.{Char, code}
use Prim.Native.String.{[], ◌∷◌}
use mathlib.Core.Path.{subst}
use mathlib.Core.List.{Memᴰ}
use mathlib.Core.Option.{some-injective}
use text.Mathlib.TextEquality.{Char-path}
use text.Mathlib.TextLemmas.{nil-append, cons-append}
use multus_cni.Base.{
  All-Memᴰ, nat_eq, ℕ, ◌≤◌, String, ◌<>◌, ◌≡◌, refl, sym, ap, ◌∙◌, Bool, Bool-cases, inl, inr, true,
  false, not, Option, none, some, List, [], ◌∷◌, ltb, contains, ◌==◌, string_eq, if◌then◌else◌, All,
  arith,
}
use multus_cni.Base.Result.{
  Result, ok, err, panic, Error, context, or_err, Ensures, returns, fails, Ensures-after,
  Ensures-bind, of_Ensures, context-eq-ok,
}
use multus_cni.CertApprover.Decision.{
  Csr, ℤ, pos, negsuc, Subject, Libraries, Request, approval, plain_update, Condition, approved,
  max_seconds, name_prefix, organization, trusted_groups, user_prefixes, required_usages,
  is_approved_or_denied, all_in, same_set, same_texts, split_last, add_char, bind_node, settled,
  user_node, unless, is_too_long, expiry, denial, with_condition, sent, decided, examined,
  is_settled, judged, found, process_item,
}

-- A number of seconds up to a year.
abbrev pub IsShort : Option ℤ → Type 0
IsShort none = ⊥
IsShort (some (pos seconds)) = seconds ≤ max_seconds
IsShort (some (negsuc _)) = Unit

within : (seconds : ℕ) → not (ltb max_seconds seconds) ≡ true → seconds ≤ max_seconds
within seconds h = ground (arith, h)

at_colon : Bool → String → Option (String × String)
at_colon b s = if b then some ([], s) else none

none_ne_some : {x : String × String} → none ≡ some x → ⊥
none_ne_some h = cc

char_joined :
    (c : Char) (s front back : String) (o : Option (String × String))
    → ((f b : String) → o ≡ some (f, b) → s ≡ f <> (":" ∷ b))
    → add_char c o (if code c == 58 then some ([], s) else none) ≡ some (front, back)
    → c ∷ s ≡ front <> (":" ∷ back)
unfolding add_char at_colon
char_joined c s front back none rest h = elim (Bool-cases (code c == 58)) [
  | inl e ↦
      let found = some-injective _ _ (subst (λ b. at_colon b s ≡ some (front, back)) e h) in
      ap (λ d. d ∷ s) (Char-path c ":" (ground (arith, e)))
      ∙ (sym (nil-append (":" ∷ s)) ∙ ap (λ x. x.0 <> (":" ∷ x.1)) found)
  | inr e ↦ absurd (none_ne_some (subst (λ b. at_colon b s ≡ some (front, back)) e h))
]
char_joined c s front back (some (f, b)) rest h =
    ap (λ t. c ∷ t) (rest f b refl)
    ∙ (sym (cons-append c f (":" ∷ b)) ∙ ap (λ x. x.0 <> (":" ∷ x.1)) (some-injective _ _ h))

split_last-joined :
    (s front back : String) → split_last s ≡ some (front, back) → s ≡ front <> (":" ∷ back)
unfolding split_last
split_last-joined [] front back h = cc
split_last-joined (c ∷ s) front back h =
    char_joined c s front back (split_last s) (split_last-joined s) h

module _ (L : Libraries) where
  -- The certificate is for the node of the user who asks for it, as a member of system:multus, for the
  -- two usages, by a user of no other groups, and for a bounded time.
  pub record IsTrusted (csr : Csr) (subject : Subject) (prefix node : String) : Type 0 where
    pub known : contains user_prefixes prefix ≡ true
    pub is_node : L.is_subdomain node ≡ true
    pub usages : same_set csr.usages required_usages ≡ true
    pub groups : all_in csr.groups trusted_groups ≡ true
    pub common_name : (subject.common_name == name_prefix <> ":" <> node) ≡ true
    pub member : same_texts subject.organization organization ≡ true
    pub short : IsShort csr.expiration_seconds

  unless-none :
      (b : Bool) (message : String) (rest : Option String)
      → unless b message rest ≡ none
      → (b ≡ true) × (rest ≡ none)
  unless-none true message rest h = (refl, h)
  unless-none false message rest h = cc

  expiry-IsShort : (csr : Csr) (o : Option ℤ) → expiry L csr o ≡ none → IsShort o
  unfolding expiry is_too_long
  expiry-IsShort csr none h = cc
  expiry-IsShort csr (some (pos seconds)) h =
      within seconds (unless-none (not (ltb max_seconds seconds)) _ none h).0
  expiry-IsShort csr (some (negsuc _)) h = tt

  denial-IsTrusted :
      (csr : Csr) (subject : Subject) (prefix node : String)
      → denial L csr subject prefix node ≡ none
      → IsTrusted csr subject prefix node
  unfolding denial
  denial-IsTrusted csr subject prefix node h =
      let (known, h₁) = unless-none _ _ _ h in
      let (is_node, h₂) = unless-none _ _ _ h₁ in
      let (usages, h₃) = unless-none _ _ _ h₂ in
      let (groups, h₄) = unless-none _ _ _ h₃ in
      let (common_name, h₅) = unless-none _ _ _ h₄ in
      let (member, h₆) = unless-none _ _ _ h₅ in
      record {
        known = known;
        is_node = is_node;
        usages = usages;
        groups = groups;
        common_name = common_name;
        member = member;
        short = expiry-IsShort csr csr.expiration_seconds h₆;
      }

  -- A request is one that is approved only if the request of the store is trusted.
  abbrev pub IsJustified : String → Request → Type 0
  IsJustified key (plain_update csr) = Unit
  IsJustified key (approval csr') =
      (csr : Csr) × (subject : Subject) × (prefix : String) × (node : String) × (L.get_by_key key
        ≡ ok (some csr))
      × (examined L csr ≡ ok (subject, prefix, node))
      × (csr.username ≡ prefix <> (":" ∷ node))
      × (is_approved_or_denied csr.conditions ≡ false)
      × (csr' ≡ with_condition L csr approved)
      × IsTrusted csr subject prefix node

  named-joined :
      (s text : String) (o : Option (String × String))
      → split_last s ≡ o
      → Ensures (λ x. s ≡ x.0 <> (":" ∷ x.1)) (or_err text (bind_node o))
  named-joined s text none e = fails
  named-joined s text (some (front, back)) e = elim (Bool-cases (back == "")) [
    | inl h ↦ rw h fails
    | inr h ↦ rw h (returns (split_last-joined s front back e))
  ]

  examined-joined : (csr : Csr) → Ensures (λ x. csr.username ≡ x.1 <> (":" ∷ x.2)) (examined L csr)
  unfolding examined user_node
  examined-joined csr =
      Ensures-after
        (or_err "failed to PEM-parse the CSR block in .spec.request: no CSRs were found"
          (L.decode csr.request))
        λ block.
          Ensures-after (context "failed to parse the CSR bytes: " (L.parse block)) λ subject.
            Ensures-bind {f = λ user. ok (subject, user.0, user.1)}
              (named-joined csr.username ("failed to parse the username: " <> csr.username)
                (split_last csr.username) refl)
              λ user joined. returns joined

  settled-open :
      (certificate : List ℕ) (conditions : List Condition)
      → settled L certificate conditions ≡ false
      → is_approved_or_denied conditions ≡ false
  unfolding settled
  settled-open [] conditions h = h
  settled-open (_ ∷ _) conditions h = cc

  sent-All :
      (key : String) (o : Option Error) (request : Request)
      → IsJustified key request
      → All (IsJustified key) (sent L o request).1
  unfolding sent
  sent-All key none request j = (j, tt)
  sent-All key (some e) request j = (j, tt)

  decided-All :
      (key : String) (csr : Csr) (o : Option String)
      → (o ≡ none → IsJustified key (approval (with_condition L csr approved)))
      → All (IsJustified key) (decided L csr o).1
  unfolding decided
  decided-All key csr none j = sent-All key _ _ (j refl)
  decided-All key csr (some message) j = sent-All key _ _ tt

  judged-All :
      (key : String) (csr : Csr) (x : Result (Subject × String × String))
      → L.get_by_key key ≡ ok (some csr)
      → examined L csr ≡ x
      → is_approved_or_denied csr.conditions ≡ false
      → All (IsJustified key) (judged L csr x).1
  unfolding judged
  judged-All key csr (ok (subject, prefix, node)) stored e open_ =
      decided-All key csr (denial L csr subject prefix node) λ h. (
        csr,
        subject,
        prefix,
        node,
        stored,
        e,
        of_Ensures (examined-joined csr) e,
        open_,
        refl,
        denial-IsTrusted csr subject prefix node h,
      )
  judged-All key csr (err f) stored e open_ = tt
  judged-All key csr panic stored e open_ = tt

  found-All :
      (key : String) (r : Result (Option Csr))
      → context ("Error fetching object with key " <> key <> " from store: ") (L.get_by_key key) ≡ r
      → All (IsJustified key) (found L r).1
  unfolding found is_settled
  found-All key (ok (some csr)) e = elim (Bool-cases (is_settled L csr)) [
    | inl h ↦ rw h tt
    | inr h ↦ rw h (
        judged-All key csr (examined L csr) (context-eq-ok _ (L.get_by_key key) e) refl
          (settled-open csr.certificate csr.conditions h))
  ]
  found-All key (ok none) e = tt
  found-All key (err f) e = tt
  found-All key panic e = tt

  -- The controller approves only a request that is in the store and is not decided yet, whose user is
  -- a known prefix, a ":" and the name of a node, and whose certificate is trusted: it names that
  -- node as the user does, is for system:multus and for the two usages of a client, is asked for
  -- by a user of no other groups, and is good for a year at most.
  pub process_item-IsJustified :
      (key : String) (csr' : Csr)
      → Memᴰ (approval csr') (process_item L key).1
      → IsJustified key (approval csr')
  unfolding process_item
  process_item-IsJustified key csr' m =
      All-Memᴰ (IsJustified key) (process_item L key).1 (found-All key _ refl) m
