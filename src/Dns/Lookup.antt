-- ===== src/Dns/Lookup.antt =====
-- Which node a name means: find_named (src/dns.cpp).
use wirebone_cpp.Prelude.{
  ◌≡◌, ◌⊎◌, ◌↔◌, inl, inr, refl, true, false, none, some, List, [], ◌∷◌, ◌++◌, Str, codes, lower,
  All, is_empty, str_eq_iff, Bool-cases, if◌then◌else◌, arith,
}
use wirebone_cpp.Store.Types.{NodeState}
use wirebone_cpp.Dns.{names_node, find_named}

-- The names of a node: its hostname, or one that is made of its stable id, alone, with the domain
-- behind it, and with a dot behind that; all in lower case.
abbrev pub host_of : NodeState → Str
host_of n = lower (if is_empty n.hostname then codes "node-" ++ n.stable_id else n.hostname)

abbrev pub IsNamed : Str → Str → NodeState → Type 0
IsNamed want domain n =
    (want ≡ host_of n)
    ⊎ ((want ≡ host_of n ++ (codes "." ++ domain))
        ⊎ (want ≡ (host_of n ++ (codes "." ++ domain)) ++ codes "."))

names_node-IsNamed :
    (want domain : Str) (n : NodeState) → (names_node want domain n ≡ true) ↔ IsNamed want domain n
unfolding names_node
names_node-IsNamed want domain n =
    let fqdn = host_of n ++ (codes "." ++ domain) in
    let host = str_eq_iff want (host_of n) in
    let long = str_eq_iff want fqdn in
    let dotted = str_eq_iff want (fqdn ++ codes ".") in
    (λ h. ground (arith, host, long, dotted), λ h. ground (arith, host, long, dotted))

unnamed :
    (want domain : Str) (n : NodeState) → ¬ IsNamed want domain n → names_node want domain n ≡ false
unnamed want domain n h = elim (Bool-cases (names_node want domain n)) [
  | inl e ↦ absurd (h ((names_node-IsNamed want domain n).0 e))
  | inr e ↦ e
]

pub find_named-none :
    (want domain : Str) (ns : List NodeState)
    → All (λ n. ¬ IsNamed want domain n) ns
    → find_named want domain ns ≡ none
unfolding find_named
find_named-none want domain [] h = refl
find_named-none want domain (n ∷ ns) (hn, h) =
    rw (unnamed want domain n hn) (find_named-none want domain ns h)

pub find_named-first :
    (want domain : Str) (before after : List NodeState) (n : NodeState)
    → All (λ m. ¬ IsNamed want domain m) before
    → IsNamed want domain n
    → find_named want domain (before ++ n ∷ after) ≡ some n
unfolding find_named
find_named-first want domain [] after n h e = rw ((names_node-IsNamed want domain n).1 e)
find_named-first want domain (m ∷ ms) after n (hm, h) e =
    rw (unnamed want domain m hm) (find_named-first want domain ms after n h e)
