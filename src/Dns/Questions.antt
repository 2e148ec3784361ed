-- ===== src/Dns/Questions.antt =====
-- A question for MagicDNS as bytes, and the bytes of its reply, described without the code of
-- src/dns.cpp.
use wirebone_cpp.Prelude.{
  ℕ, ◌+◌, ◌*◌, ◌/◌, ◌%◌, ◌^◌, ◌<◌, ◌≡◌, inl, inr, refl, false, Option, none, some, is_empty, ◌==◌,
  Bool-cases, List, [], ◌∷◌, ◌++◌, append-nil, Str, All, lower, length, if◌then◌else◌, arith,
}
use wirebone_cpp.IpAlloc.{Inet}
use wirebone_cpp.Store.Types.{NodeState}
use wirebone_cpp.Dns.{find_named, a_records, aaaa_records, reply, all_bytes}
use wirebone_cpp.Dns.Lookup.{IsNamed, find_named-none, find_named-first}
use wirebone_cpp.Dns.Names.{encoded, spelled, IsLabel}

-- A question with one name: identifier, flags, number of questions, six more bytes, the labels, type
-- and class, and whatever follows.
pub record Question : Type 0 where
  pub id_high : ℕ
  pub id_low : ℕ
  pub flags_high : ℕ
  pub flags_low : ℕ
  pub count_high : ℕ
  pub count_low : ℕ
  pub more : List ℕ
  pub labels : List Str
  pub type_high : ℕ
  pub type_low : ℕ
  pub class_high : ℕ
  pub class_low : ℕ
  pub tail : List ℕ

abbrev pub front : Question → List ℕ
front q = q.id_high ∷ q.id_low ∷ q.flags_high ∷ q.flags_low ∷ q.count_high ∷ q.count_low ∷ q.more

abbrev pub type_class : Question → List ℕ
type_class q = q.type_high ∷ q.type_low ∷ q.class_high ∷ q.class_low ∷ []

abbrev pub asked : Question → List ℕ
asked q = encoded q.labels ++ type_class q

abbrev pub packet : Question → List ℕ
packet q = front q ++ (encoded q.labels ++ (type_class q ++ q.tail))

abbrev pub qtype : Question → ℕ
qtype q = q.type_high * 256 + q.type_low

-- The question is no reply, asks for something, and its name can be read.
pub record IsAsked (q : Question) : Type 0 where
  pub query : q.flags_high < 128
  pub some_question : 0 < q.count_high * 256 + q.count_low
  pub whole : length q.more ≡ 6
  pub labels : All IsLabel q.labels
  pub few : length q.labels < 16

-- The record of an IPv4 address, and of an IPv6 address: the name at offset 12, type, class IN, a time
-- of 30 seconds, and the bytes behind their number.
abbrev pub a_record : ℕ → List ℕ
a_record a =
    192
    ∷ 12
    ∷ 0
    ∷ 1
    ∷ 0
    ∷ 1
    ∷ 0
    ∷ 0
    ∷ 0
    ∷ 30
    ∷ 0
    ∷ 4
    ∷ (a / 2 ^ 24 % 256)
    ∷ (a / 2 ^ 16 % 256)
    ∷ (a / 2 ^ 8 % 256)
    ∷ (a % 256)
    ∷ []

abbrev pub aaaa_record : List ℕ → List ℕ
aaaa_record raw = 192 ∷ 12 ∷ 0 ∷ 28 ∷ 0 ∷ 1 ∷ 0 ∷ 0 ∷ 0 ∷ 30 ∷ 0 ∷ 16 ∷ raw

-- How many records there are for a type, and their bytes.
abbrev pub records_for : ℕ → ℕ → List ℕ → ℕ × List ℕ
records_for type a raw =
    if type == 1
    then (1, a_record a)
    else if type == 28
    then (1, aaaa_record raw)
    else if type == 255
    then (2, a_record a ++ aaaa_record raw)
    else (0, [])

abbrev pub head_of : Question → ℕ → ℕ → List ℕ
head_of q code answers =
    q.id_high ∷ q.id_low ∷ 129 ∷ code ∷ q.count_high ∷ q.count_low ∷ 0 ∷ answers ∷ 0 ∷ 0 ∷ 0 ∷ 0
    ∷ []

-- The bytes of the reply, for a node with these two addresses or for no node.
abbrev pub reply_to : Question → Option (ℕ × List ℕ) → List ℕ
reply_to q none = head_of q 131 0 ++ asked q
reply_to q (some (a, raw)) =
    let (number, records) = records_for (qtype q) a raw in
    head_of q 128 number ++ (asked q ++ records)

module _ (inet : Inet) (domain : Str) (nodes : List NodeState) (q : Question) where
  -- The registry has no node of the name; or the first node of the name has these two addresses.
  abbrev pub Looked : Option (ℕ × List ℕ) → Type 0
  Looked none = All (λ n. ¬ IsNamed (lower (spelled q.labels)) (lower domain) n) nodes
  Looked (some (a, raw)) =
      (before : List NodeState) × (n : NodeState) × (after : List NodeState) × (nodes
        ≡ before ++ n ∷ after)
      × All (λ m. ¬ IsNamed (lower (spelled q.labels)) (lower domain) m) before
      × IsNamed (lower (spelled q.labels)) (lower domain) n
      × (is_empty n.ipv4 ≡ false)
      × (inet.pton4 n.ipv4 ≡ some a)
      × (is_empty n.ipv6 ≡ false)
      × (inet.pton6 n.ipv6 ≡ some raw)

  records_lem :
      (t : ℕ) (n : NodeState) (a : ℕ) (raw : List ℕ)
      → is_empty n.ipv4 ≡ false
      → inet.pton4 n.ipv4 ≡ some a
      → is_empty n.ipv6 ≡ false
      → inet.pton6 n.ipv6 ≡ some raw
      → (length (a_records inet t n ++ aaaa_records inet t n) ≡ (records_for t a raw).0)
        × (all_bytes inet (a_records inet t n ++ aaaa_records inet t n) ≡ (records_for t a raw).1)
  unfolding a_records aaaa_records
  records_lem t n a raw has4 read4 has6 read6 =
      let (len, _) = inet.pton6_shape n.ipv6 raw read6 in
      elim (Bool-cases (t == 1)) [
        | inl e ↦ let here : t ≡ 1 = ground arith in rw (here, has4, read4) (refl, refl)
        | inr one ↦ elim (Bool-cases (t == 28)) [
          | inl e ↦
              let here : t ≡ 28 = ground arith in
              rw (here, has6, read6, len, append-nil raw) (refl, refl)
          | inr other ↦ elim (Bool-cases (t == 255)) [
            | inl e ↦
                let here : t ≡ 255 = ground arith in
                rw (here, has4, read4, has6, read6, len, append-nil raw) (refl, refl)
            | inr neither ↦ rw (one, other, neither) (refl, refl)
          ]
        ]
      ]

  records_for_few : (t a : ℕ) (raw : List ℕ) → (records_for t a raw).0 < 3
  records_for_few t a raw = ground arith

  node_reply :
      (n : NodeState) (a : ℕ) (raw : List ℕ)
      → is_empty n.ipv4 ≡ false
      → inet.pton4 n.ipv4 ≡ some a
      → is_empty n.ipv6 ≡ false
      → inet.pton6 n.ipv6 ≡ some raw
      → reply inet (packet q) (asked q) (qtype q) (some n) ≡ reply_to q (some (a, raw))
  node_reply n a raw has4 read4 has6 read6 =
      let (number, bytes) = records_lem (qtype q) n a raw has4 read4 has6 read6 in
      let few = records_for_few (qtype q) a raw in
      let high : (records_for (qtype q) a raw).0 / 2 ^ 8 % 256 ≡ 0 = omega arith in
      let low : (records_for (qtype q) a raw).0 % 256 ≡ (records_for (qtype q) a raw).0 =
        omega arith in
      rw (number, bytes, high, low)

  -- The reply that the code makes of what it finds.
  pub Looked-reply :
      (o : Option (ℕ × List ℕ))
      → Looked o
      → reply inet
          (packet q)
          (asked q)
          (qtype q)
          (find_named (lower (spelled q.labels)) (lower domain) nodes)
        ≡ reply_to q o
  Looked-reply none h = rw (find_named-none _ _ nodes h) refl
  Looked-reply (some (a, raw)) (before, n, after, e, others, this, has4, read4, has6, read6) =
      rw (e, find_named-first _ _ before after n others this)
        (node_reply n a raw has4 read4 has6 read6)
