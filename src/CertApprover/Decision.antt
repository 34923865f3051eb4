-- ===== src/CertApprover/Decision.antt =====
-- processItem, approveCSR, denyCSR and filterCSR of the controller.
pub mod Trusted
use Prim.Native.Char.{Char, code}
use Prim.Native.String.{[], ◌∷◌}
use multus_cni.Base.{
  ℕ, ◌+◌, String, ◌<>◌, Bool, true, false, not, ◌&&◌, ◌||◌, Option, none, some, List, [], ◌∷◌, ◌++◌,
  ◌≡◌, ◌≢◌, ltb, contains, ◌==◌, ◌!=◌, nat_eq, string_eq, if◌then◌else◌,
}
use multus_cni.Base.Outcome.{Outcome, next}
use multus_cni.Base.Result.{
  Result, ok, err, panic, Error, errorf, wrap, context, or_err, or_panic, ◌>>=◌,
}
use multus_cni.Json.{Bytes}
use multus_cni.Text.{starts_with}

-- A condition of a request; other conditions are kept by their type.
pub data Condition : Type 0 where
  approved : Condition
  denied : String → Condition
  other : String → Condition

-- A number of seconds, which is a signed integer.
pub data ℤ : Type 0 where
  pos : ℕ → ℤ
  negsuc : ℕ → ℤ

-- CertificateSigningRequest: its metadata, specification and status.
pub record Csr : Type 0 where
  pub name : String
  pub signer_name : String
  pub request : String
  pub username : String
  pub groups : List String
  pub usages : List String
  pub expiration_seconds : Option ℤ
  pub certificate : List ℕ
  pub conditions : List Condition

-- The subject of the request that the signing request holds.
pub record Subject : Type 0 where
  pub common_name : String
  pub organization : List String

-- What libraries tell: pem.Decode, x509.ParseCertificateRequest, validation.IsDNS1123Subdomain, the
-- store of the informer, and the answers of the API server. `name_prefix` is commonNamePrefixes.
pub record Libraries : Type 0 where
  pub decode : String → Option Bytes
  pub parse : Bytes → Result Subject
  pub is_subdomain : String → Bool
  pub get_by_key : String → Result (Option Csr)
  pub update_approval : Csr → Option Error
  pub update : Csr → Option Error
  pub quote : String → String

-- The calls of the API server, UpdateApproval and Update.
pub data Request : Type 0 where
  approval : Csr → Request
  plain_update : Csr → Request

abbrev pub max_seconds : ℕ
max_seconds = 31536000

abbrev pub max_retries : ℕ
max_retries = 5

abbrev pub name_prefix : String
name_prefix = "system:multus"

abbrev pub organization : List String
organization = "system:multus" ∷ []

abbrev pub trusted_groups : List String
trusted_groups = "system:nodes" ∷ "system:multus" ∷ "system:authenticated" ∷ []

abbrev pub user_prefixes : List String
user_prefixes = "system:node" ∷ "system:multus" ∷ []

abbrev pub required_usages : List String
required_usages = "digital signature" ∷ "client auth" ∷ []

unfoldable pub is_approved_or_denied : List Condition → Bool
is_approved_or_denied [] = false
is_approved_or_denied (approved ∷ conditions) = true
is_approved_or_denied (denied _ ∷ conditions) = true
is_approved_or_denied (other _ ∷ conditions) = is_approved_or_denied conditions

-- Every text of a list is in another.
abbrev pub all_in : List String → List String → Bool
all_in [] all = true
all_in (s ∷ more) all = contains all s && all_in more all

abbrev pub same_set : List String → List String → Bool
same_set xs ys = all_in xs ys && all_in ys xs

-- reflect.DeepEqual of lists of texts.
abbrev pub same_texts : List String → List String → Bool
same_texts [] [] = true
same_texts [] (_ ∷ _) = false
same_texts (_ ∷ _) [] = false
same_texts (s ∷ ss) (t ∷ ts) = s == t && same_texts ss ts

add_char : Char → Option (String × String) → Option (String × String) → Option (String × String)
add_char c (some (front, back)) here = some (c ∷ front, back)
add_char c none here = here

-- The texts before and behind the last ":", which is 58.
unfoldable pub split_last : String → Option (String × String)
unfolding add_char
split_last [] = none
split_last (c ∷ s) = add_char c (split_last s) (if code c == 58 then some ([], s) else none)

abbrev named_node : String × String → Option (String × String)
named_node (prefix, node) = if node == "" then none else some (prefix, node)

abbrev bind_node : Option (String × String) → Option (String × String)
bind_node none = none
bind_node (some split) = named_node split

-- The prefix and the node of the name of a user; neither a missing ":" nor one at the end is allowed.
unfoldable pub user_node : String → Option (String × String)
unfolding split_last
user_node username = bind_node (split_last username)

abbrev unless : Bool → String → Option String → Option String
unless true message rest = rest
unless false message rest = some message

is_too_long : ℤ → Bool
is_too_long (pos seconds) = ltb max_seconds seconds
is_too_long (negsuc _) = false

module _ (L : Libraries) where
  expiry : Csr → Option ℤ → Option String
  unfolding is_too_long
  expiry csr none =
      some ("CSR " <> L.quote csr.name <> " was created without specyfying the expirationSeconds")
  expiry csr (some seconds) =
      unless (not (is_too_long seconds))
        ("CSR " <> L.quote csr.name <> " was created with invalid expirationSeconds value") none

  -- The message of the first test that fails. What a message lists of a set is left out.
  unfoldable pub denial : Csr → Subject → String → String → Option String
  unfolding expiry
  denial csr subject prefix node =
      unless (contains user_prefixes prefix)
        ("CSR "
          <> L.quote csr.name
          <> " was created by an unexpected user: "
          <> L.quote csr.username)
        (unless (L.is_subdomain node)
          ("extracted node name " <> L.quote node <> " is not a valid DNS subdomain")
          (unless (same_set csr.usages required_usages)
            ("CSR " <> L.quote csr.name <> " was created with unexpected usages")
            (unless (all_in csr.groups trusted_groups)
              ("CSR " <> L.quote csr.name <> " was created by a user with unexpected groups")
              (unless (subject.common_name == name_prefix <> ":" <> node)
                ("expected the CSR's commonName to be "
                  <> L.quote (name_prefix <> ":" <> node)
                  <> ", but it is "
                  <> L.quote subject.common_name)
                (unless (same_texts subject.organization organization)
                  "expected the CSR's organization to be [system:multus]"
                  (expiry csr csr.expiration_seconds))))))

  abbrev pub with_condition : Csr → Condition → Csr
  with_condition csr condition = record csr { conditions = csr.conditions ++ condition ∷ [] }

  sent : Option Error → Request → Outcome (List Request) (Unit {0})
  sent none request = (ok tt, request ∷ [])
  sent (some e) request = (err e, request ∷ [])

  -- approveCSR and denyCSR, which use different calls.
  decided : Csr → Option String → Outcome (List Request) (Unit {0})
  unfolding sent
  decided csr none =
      let csr' = with_condition csr approved in sent (L.update_approval csr') (approval csr')
  decided csr (some message) =
      let csr' = with_condition csr (denied message) in sent (L.update csr') (plain_update csr')

  -- The subject, and the prefix and the node of the user.
  unfoldable pub examined : Csr → Result (Subject × String × String)
  unfolding user_node
  examined csr = do
    block ←
        or_err "failed to PEM-parse the CSR block in .spec.request: no CSRs were found"
          (L.decode csr.request)
    subject ← context "failed to parse the CSR bytes: " (L.parse block)
    user ← or_err ("failed to parse the username: " <> csr.username) (user_node csr.username)
    ok (subject, user.0, user.1)

  settled : List ℕ → List Condition → Bool
  unfolding is_approved_or_denied
  settled [] conditions = is_approved_or_denied conditions
  settled (_ ∷ _) conditions = true

  -- The request is signed, or is approved or denied.
  is_settled : Csr → Bool
  unfolding settled
  is_settled csr = settled csr.certificate csr.conditions

  judged : Csr → Result (Subject × String × String) → Outcome (List Request) (Unit {0})
  unfolding decided denial
  judged csr (ok (subject, prefix, node)) = decided csr (denial csr subject prefix node)
  judged csr (err e) = (err e, [])
  judged csr panic = (panic, [])

  -- A request that is gone from the store is nil, and reading its status panics.
  found : Result (Option Csr) → Outcome (List Request) (Unit {0})
  unfolding is_settled judged examined
  found (ok (some csr)) = if is_settled csr then (ok tt, []) else judged csr (examined csr)
  found (ok none) = (panic, [])
  found (err e) = (err e, [])
  found panic = (panic, [])

  unfoldable pub process_item : String → Outcome (List Request) (Unit {0})
  unfolding found
  process_item key =
      found
        (context ("Error fetching object with key " <> key <> " from store: ") (L.get_by_key key))

  filtered : String → Option (Result Subject) → Bool
  unfolding starts_with
  filtered signer (some (ok subject)) =
      starts_with name_prefix subject.common_name && signer == "kubernetes.io/kube-apiserver-client"
  filtered signer _ = false

  abbrev parsed : Option Bytes → Option (Result Subject)
  parsed none = none
  parsed (some block) = some (L.parse block)

  -- The requests that are put into the queue.
  unfoldable pub filter_csr : Csr → Bool
  unfolding filtered
  filter_csr csr = filtered csr.signer_name (parsed (L.decode csr.request))
