-- ===== src/Dns/Replies.antt =====
-- The replies of MagicDNS to a resolver's question (src/dns.cpp).
use wirebone_cpp.Prelude.{
  ℕ, ◌+◌, ◌-◌, ◌*◌, ◌≡◌, sym, ap, ◌∙◌, true, false, Option, none, some, List, ◌++◌, append_assoc,
  Str, lower, length, length-append, take, drop, take-append, drop-append, get_or, get_or-drop, ltb,
  leb, if◌then◌else◌, arith,
}
use wirebone_cpp.IpAlloc.{Inet}
use wirebone_cpp.Store.Types.{NodeState}
use wirebone_cpp.Dns.{parse_qname, find_named, reply, answer_name, answer}
use wirebone_cpp.Dns.Names.{encoded, spelled, parse_qname-encoded}
use wirebone_cpp.Dns.Questions.{
  Question, front, type_class, asked, packet, qtype, IsAsked, reply_to, Looked, Looked-reply,
}

module _ (inet : Inet) (domain : Str) (nodes : List NodeState) (q : Question) (h : IsAsked q) where
  front_size : length (front q) ≡ 12
  front_size = omega (arith, h.whole)

  name_read : parse_qname (packet q) 12 ≡ some (12 + length (encoded q.labels), spelled q.labels)
  name_read =
      let few : ltb (length q.labels) 16 ≡ true = ground (arith, h.few) in
      ap (λ n. parse_qname (packet q) n) (sym front_size)
      ∙ parse_qname-encoded (front q) q.labels (type_class q ++ q.tail) h.labels
      ∙ (λ i.
          if few i then some (front_size i + length (encoded q.labels), spelled q.labels) else none)

  name_size : length (front q ++ encoded q.labels) ≡ 12 + length (encoded q.labels)
  name_size = omega (arith, length-append (front q) (encoded q.labels), front_size)

  behind_name : drop (12 + length (encoded q.labels)) (packet q) ≡ type_class q ++ q.tail
  behind_name =
      ap (λ t. drop (12 + length (encoded q.labels)) t)
        (sym (append_assoc (front q) (encoded q.labels) (type_class q ++ q.tail)))
      ∙ drop-append (front q ++ encoded q.labels) (type_class q ++ q.tail) _ name_size

  byte_behind :
      (k : ℕ)
      → get_or (packet q) (12 + length (encoded q.labels) + k) 0
        ≡ get_or (type_class q ++ q.tail) k 0
  byte_behind k =
      get_or-drop (packet q) (12 + length (encoded q.labels)) k 0
      ∙ ap (λ t. get_or t k 0) behind_name

  asked_bytes : take (12 + length (encoded q.labels) + 4 - 12) (drop 12 (packet q)) ≡ asked q
  asked_bytes =
      let cut : 12 + length (encoded q.labels) + 4 - 12 ≡ length (asked q) =
        omega (arith, length-append (encoded q.labels) (type_class q)) in
      ap (λ t. take (12 + length (encoded q.labels) + 4 - 12) t)
        (drop-append (front q) _ 12 front_size
          ∙ sym (append_assoc (encoded q.labels) (type_class q) q.tail))
      ∙ take-append (asked q) q.tail _ (sym cut)

  long_enough : ltb (length (packet q)) (12 + length (encoded q.labels) + 4) ≡ false
  long_enough =
      let whole = length-append (front q ++ encoded q.labels) (type_class q ++ q.tail) in
      let same =
        ap (λ t. length t) (append_assoc (front q) (encoded q.labels) (type_class q ++ q.tail)) in
      ground (arith, whole, same, name_size)

  -- What answer_name makes of the name.
  named :
      answer_name inet (packet q) domain nodes (12 + length (encoded q.labels), spelled q.labels)
      ≡ some (
          reply inet
            (packet q)
            (asked q)
            (qtype q)
            (find_named (lower (spelled q.labels)) (lower domain) nodes))
  unfolding answer_name
  named =
      let here : 12 + length (encoded q.labels) ≡ 12 + length (encoded q.labels) + 0 =
        omega arith in
      let high = ap (λ k. get_or (packet q) k 0) here ∙ byte_behind 0 in
      rw (long_enough, asked_bytes, high, byte_behind 1)

  answer-reply :
      answer inet (packet q) domain nodes
      ≡ some (
          reply inet
            (packet q)
            (asked q)
            (qtype q)
            (find_named (lower (spelled q.labels)) (lower domain) nodes))
  unfolding answer
  answer-reply =
      let twelve : ltb (length (packet q)) 12 ≡ false = ground (
        arith,
        length-append (front q) (encoded q.labels ++ (type_class q ++ q.tail)),
        front_size,
      ) in
      let query : leb 128 (q.flags_high) ≡ false = ground (arith, h.query) in
      let some_question : ltb (q.count_high * 256 + q.count_low) 1 ≡ false =
        ground (arith, h.some_question) in
      rw (twelve, query, some_question, name_read, named)

  -- The reply to a question for a name echoes the identifier, the number of questions and the one
  -- question that was read. Where no node has the name it says so, and has no record. Where the first
  -- node of the name has an IPv4 and an IPv6 address it has the record of the IPv4 address for type 1,
  -- of the IPv6 address for 28, both for 255, and none for another type.
  pub answer_question :
      (o : Option (ℕ × List ℕ))
      → Looked inet domain nodes q o
      → answer inet (packet q) domain nodes ≡ some (reply_to q o)
  answer_question o looked = answer-reply ∙ ap some (Looked-reply inet domain nodes q o looked)
