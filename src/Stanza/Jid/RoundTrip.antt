-- ===== src/Stanza/Jid/RoundTrip.antt =====
-- What NewJid accepts, and that it undoes Full.
use mathlib.Core.Path.{subst}
use go_xmpp.Text.Split.{IsCut, split_2, split_2-IsCut, split_2-Lacks, split_2-append}
use go_xmpp.Text.{GoString, Lacks, contains_func, is_space}
use go_xmpp.Stanza.Jid.{
  Jid, domain_runes, full, is_domain_valid, is_invalid, is_username_valid, new_jid, node_runes,
  split_node, split_resource, validate, with_node,
}
use go_xmpp.Prelude.{
  All-append, Bool, Option, [], ap, append_assoc, arith, false, inl, inr, none, refl, some, sym,
  true, ℕ, ◌++◌, ◌∙◌, ◌∷◌, ◌≡◌, ◌≢◌, ◌⊎◌,
}

-- A Jid whose parts may stand in an address, as NewJid tests them.
pub record IsValidJid (j : Jid) : Type 0 where
  pub node_valid : is_username_valid j.node ≡ true
  pub domain_valid : is_domain_valid j.domain ≡ true

contains_func-Lacks :
    (p : ℕ → Bool) (b : ℕ) (s : GoString) → contains_func p s ≡ false → p b ≡ true → Lacks b s
unfolding contains_func
contains_func-Lacks p b [] h k = tt
contains_func-Lacks p b (c ∷ s) h k =
    ((λ e. ground (arith, ap p e)), contains_func-Lacks p b s (ground arith) k)

slash_invalid : is_invalid node_runes b'/' ≡ true
unfolding is_invalid is_space
slash_invalid = refl

at_invalid : is_invalid node_runes b'@' ≡ true
unfolding is_invalid is_space
at_invalid = refl

slash_invalid_domain : is_invalid domain_runes b'/' ≡ true
unfolding is_invalid is_space
slash_invalid_domain = refl

at_invalid_domain : is_invalid domain_runes b'@' ≡ true
unfolding is_invalid is_space
at_invalid_domain = refl

username-Lacks :
    (b : ℕ) (s : GoString) → is_invalid node_runes b ≡ true → is_username_valid s ≡ true → Lacks b s
unfolding is_username_valid
username-Lacks b s k h = contains_func-Lacks (is_invalid node_runes) b s (ground arith) k

domain-Lacks :
    (b : ℕ) (s : GoString) → is_invalid domain_runes b ≡ true → is_domain_valid s ≡ true → Lacks b s
unfolding is_domain_valid
domain-Lacks b [] k h = tt
domain-Lacks b (c ∷ s) k h =
    contains_func-Lacks (is_invalid domain_runes) b (c ∷ s) (ground arith) k

validate-none : (j : Jid) → (validate j).1 ≡ none → IsValidJid j × ((validate j).0 ≡ j)
unfolding validate
validate-none j h = ground arith

validate-valid : (j : Jid) → IsValidJid j → validate j ≡ (j, none)
unfolding validate
validate-valid j v = ground arith

abbrev Spells : GoString → Jid → Type 0
Spells s j = (s ≡ full j) ⊎ ((j.resource ≡ []) × (s ≡ full j ++ b'/' ∷ []))

-- After the node is cut off: the domain, and the resource if there is a slash.
split_resource-Spells :
    (node rest : GoString) (r : GoString × Option GoString)
    → IsCut b'/' rest r
    → node ≢ []
    → Spells (node ++ b'@' ∷ rest) (split_resource node r)
unfolding split_resource full
split_resource-Spells [] rest r c h = absurd (h refl)
split_resource-Spells (n ∷ node) rest (d, none) c h = inl (rw c.0)
split_resource-Spells (n ∷ node) rest (d, some []) c h = inr (
  refl,
  ap (λ l. (n ∷ node) ++ b'@' ∷ l) c.0 ∙ sym (append_assoc (n ∷ node) (b'@' ∷ d) (b'/' ∷ [])),
)
split_resource-Spells (n ∷ node) rest (d, some (c₀ ∷ r)) c h = inl (rw c.0)

plain-Spells :
    (rest : GoString) (r : GoString × Option GoString)
    → IsCut b'/' rest r
    → Spells rest (split_resource [] r)
unfolding split_resource full
plain-Spells rest (d, none) c = inl c.0
plain-Spells rest (d, some []) c = inr (refl, c.0)
plain-Spells rest (d, some (c₀ ∷ r)) c = inl c.0

with_node_sound :
    (node rest s : GoString)
    → Spells s (split_resource node (split_2 b'/' rest))
    → (with_node node rest).1 ≡ none
    → IsValidJid (with_node node rest).0 × Spells s (with_node node rest).0
unfolding with_node
with_node_sound node rest s sp h =
    let (v, e) = validate-none (split_resource node (split_2 b'/' rest)) h in
    (subst IsValidJid (sym e) v, subst (Spells s) (sym e) sp)

split_node_sound :
    (s : GoString) (r : GoString × Option GoString)
    → IsCut b'@' s r
    → (split_node r).1 ≡ none
    → IsValidJid (split_node r).0 × Spells s (split_node r).0
unfolding split_node
split_node_sound s (rest, none) c h =
    with_node_sound [] rest s
      (subst (λ t. Spells t (split_resource [] (split_2 b'/' rest))) (sym c.0)
        (plain-Spells rest _ (split_2-IsCut b'/' rest)))
      h
split_node_sound s ([], some rest) c h = cc
split_node_sound s (n ∷ node, some []) c h = cc
split_node_sound s (n ∷ node, some (d ∷ rest)) c h =
    with_node_sound (n ∷ node) (d ∷ rest) s
      (subst (λ t. Spells t (split_resource (n ∷ node) (split_2 b'/' (d ∷ rest)))) (sym c.0)
        (split_resource-Spells (n ∷ node) (d ∷ rest) _ (split_2-IsCut b'/' (d ∷ rest)) (λ e. cc)))
      h

-- What NewJid accepts has a valid node and a valid domain, and the Jid spells the input, but for a
-- final slash with no resource behind it.
pub new_jid_sound :
    (s : GoString)
    → (new_jid s).1 ≡ none
    → IsValidJid (new_jid s).0
      × ((s ≡ full (new_jid s).0)
          ⊎ (((new_jid s).0.resource ≡ []) × (s ≡ full (new_jid s).0 ++ b'/' ∷ [])))
unfolding new_jid
new_jid_sound [] h = cc
new_jid_sound (c ∷ s) h = split_node_sound (c ∷ s) _ (split_2-IsCut b'@' (c ∷ s)) h

plain_node : (c : ℕ) (s : GoString) → Lacks b'@' (c ∷ s) → new_jid (c ∷ s) ≡ with_node [] (c ∷ s)
unfolding new_jid
plain_node c s h = ap split_node (split_2-Lacks b'@' (c ∷ s) h)

some_node :
    (n : ℕ) (ns : GoString) (c : ℕ) (s : GoString)
    → Lacks b'@' (n ∷ ns)
    → new_jid ((n ∷ ns) ++ b'@' ∷ c ∷ s) ≡ with_node (n ∷ ns) (c ∷ s)
unfolding new_jid
some_node n ns c s h = ap split_node (split_2-append b'@' (n ∷ ns) (c ∷ s) h)

with_node-plain :
    (node d : GoString)
    → Lacks b'/' d
    → with_node node d ≡ validate (record { node = node; domain = d; resource = [] })
unfolding with_node
with_node-plain node d h = ap (λ p. validate (split_resource node p)) (split_2-Lacks b'/' d h)

with_node-resource :
    (node d r : GoString)
    → Lacks b'/' d
    → with_node node (d ++ b'/' ∷ r) ≡ validate (record { node = node; domain = d; resource = r })
unfolding with_node
with_node-resource node d r h =
    ap (λ p. validate (split_resource node p)) (split_2-append b'/' d r h)

from_full :
    (n d r : GoString)
    → IsValidJid (record { node = n; domain = d; resource = r })
    → (n ≢ []) ⊎ Lacks b'@' r
    → new_jid (full (record { node = n; domain = d; resource = r }))
      ≡ validate (record { node = n; domain = d; resource = r })
unfolding full
from_full n [] r v h = absurd (unfold is_domain_valid in cc (v.domain_valid))
from_full [] (c ∷ d) [] v h =
    plain_node c d (domain-Lacks b'@' (c ∷ d) at_invalid_domain v.domain_valid)
    ∙ with_node-plain [] (c ∷ d) (domain-Lacks b'/' (c ∷ d) slash_invalid_domain v.domain_valid)
from_full [] (c ∷ d) (x ∷ r) v (inl ne) = absurd (ne refl)
from_full [] (c ∷ d) (x ∷ r) v (inr h) =
    plain_node c (d ++ b'/' ∷ x ∷ r) (
      All-append (λ b. b ≢ b'@') (c ∷ d) (b'/' ∷ x ∷ r)
        (domain-Lacks b'@' (c ∷ d) at_invalid_domain v.domain_valid) ((λ e. omega arith), h))
    ∙ with_node-resource [] (c ∷ d) (x ∷ r)
        (domain-Lacks b'/' (c ∷ d) slash_invalid_domain v.domain_valid)
from_full (n ∷ ns) (c ∷ d) [] v h =
    some_node n ns c d (username-Lacks b'@' (n ∷ ns) at_invalid v.node_valid)
    ∙ with_node-plain (n ∷ ns) (c ∷ d)
        (domain-Lacks b'/' (c ∷ d) slash_invalid_domain v.domain_valid)
from_full (n ∷ ns) (c ∷ d) (x ∷ r) v h =
    some_node n ns c (d ++ b'/' ∷ x ∷ r) (username-Lacks b'@' (n ∷ ns) at_invalid v.node_valid)
    ∙ with_node-resource (n ∷ ns) (c ∷ d) (x ∷ r)
        (domain-Lacks b'/' (c ∷ d) slash_invalid_domain v.domain_valid)

-- NewJid gives a Jid back from its full form, if its node and domain are valid and, where it has no
-- node, its resource holds no '@'.
pub new_jid-full :
    (j : Jid) → IsValidJid j → (j.node ≢ []) ⊎ Lacks b'@' j.resource → new_jid (full j) ≡ (j, none)
new_jid-full j v h = from_full j.node j.domain j.resource v h ∙ validate-valid j v

not_last : (p : GoString) (r : GoString) → Lacks b'/' (p ++ b'/' ∷ r) → ⊥
not_last [] r h = h.0 refl
not_last (c ∷ p) r h = not_last p r h.1

node-split_resource :
    (n : GoString) (r : GoString × Option GoString) → (split_resource n r).node ≡ n
unfolding split_resource
node-split_resource n (d, none) = refl
node-split_resource n (d, some r) = refl

refused_node : (p r rest : GoString) → (with_node (p ++ b'/' ∷ r) rest).1 ≢ none
unfolding with_node
refused_node p r rest e =
    let n = p ++ b'/' ∷ r in
    let j = split_resource n (split_2 b'/' rest) in
    let v : is_username_valid n ≡ true =
      subst (λ m. is_username_valid m ≡ true) (node-split_resource n (split_2 b'/' rest))
        (validate-none j e).0.node_valid in
    not_last p r (username-Lacks b'/' n slash_invalid v)

refused_split :
    (c : ℕ) (p r rest : GoString) → (split_node ((c ∷ p) ++ b'/' ∷ r, some rest)).1 ≢ none
unfolding split_node
refused_split c p r [] e = cc
refused_split c p r (x ∷ rest) e = refused_node (c ∷ p) r (x ∷ rest) e

-- An address without a node whose resource holds an '@' is refused, though its domain is valid: the
-- '@' of the resource is taken for the one behind a node.
pub new_jid_refuses :
    (d r₁ r₂ : GoString)
    → is_domain_valid d ≡ true
    → Lacks b'@' r₁
    → (new_jid (d ++ b'/' ∷ (r₁ ++ b'@' ∷ r₂))).1 ≢ none
unfolding new_jid
new_jid_refuses [] r₁ r₂ v h e = unfold is_domain_valid in cc v
new_jid_refuses (c ∷ d) r₁ r₂ v h e =
    let p = (c ∷ d) ++ b'/' ∷ r₁ in
    let lacks : Lacks b'@' p =
      All-append (λ b. b ≢ b'@') (c ∷ d) (b'/' ∷ r₁) (domain-Lacks b'@' (c ∷ d) at_invalid_domain v)
        ((λ q. omega arith), h) in
    let same : split_2 b'@' ((c ∷ d) ++ b'/' ∷ (r₁ ++ b'@' ∷ r₂)) ≡ (p, some r₂) =
      ap (split_2 b'@') (sym (append_assoc (c ∷ d) (b'/' ∷ r₁) (b'@' ∷ r₂)))
      ∙ split_2-append b'@' p r₂ lacks in
    refused_split c d r₁ r₂ (subst (λ q. (split_node q).1 ≡ none) same e)
