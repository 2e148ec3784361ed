-- ===== src/Tests/Questions.antt =====
-- Names in packets, and the reply to a question for a node.
use wirebone_cpp.Prelude.{
  ℕ, ◌≡◌, ◌+◌, ◌*◌, ◌≤◌, ◌∷◌, ◌++◌, [], inl, inr, refl, true, false, some, none, Str, List, All,
  codes, replicate, arith,
}
use wirebone_cpp.Store.Types.{NodeState}
use wirebone_cpp.Samples.Addresses.{sample_inet}
use wirebone_cpp.Dns.{parse_qname, parse_loop, answer, without_dot}
use wirebone_cpp.Dns.Names.{IsLabel, encoded, parse_qname-encoded}
use wirebone_cpp.Dns.Bounds.{parse_qname_bounds}
use wirebone_cpp.Dns.Replies.{answer_question}
use wirebone_cpp.Dns.Questions.{Question, IsAsked, packet, Looked}

abbrev alpha : NodeState
alpha = record {
  id = 1;
  stable_id = codes "s1";
  hostname = codes "Alpha";
  machine_key = codes "m";
  node_key = [];
  disco_key = [];
  ipv4 = (100 * 16777216 + 7) ∷ [];
  ipv6 = replicate 16 1;
  endpoints = [];
  online = true;
  ephemeral = false;
  token = [];
  shared = false;
}

abbrev domain : Str
domain = codes "tail.net"

abbrev labels : List Str
labels = codes "alpha" ∷ codes "tail" ∷ codes "net" ∷ []

labels-IsLabel : All IsLabel labels
labels-IsLabel =
    ((omega arith, omega arith), ((omega arith, omega arith), ((omega arith, omega arith), tt)))

abbrev question : Question
question = record {
  id_high = 1;
  id_low = 2;
  flags_high = 1;
  flags_low = 0;
  count_high = 0;
  count_low = 1;
  more = replicate 6 0;
  labels = labels;
  type_high = 0;
  type_low = 1;
  class_high = 0;
  class_low = 1;
  tail = [];
}

question-IsAsked : IsAsked question
question-IsAsked = record {
  query = omega arith;
  some_question = omega arith;
  whole = refl;
  labels = labels-IsLabel;
  few = omega arith;
}

parse_qname-encoded_example :
    parse_qname (9 ∷ (encoded labels ++ 1 ∷ [])) 1 ≡ some (17, codes "alpha.tail.net")
parse_qname-encoded_example = parse_qname-encoded (9 ∷ []) labels (1 ∷ []) labels-IsLabel

-- A label, and a pointer to the zero in front of it.
abbrev pointing : List ℕ
pointing = 0 ∷ 1 ∷ 97 ∷ 192 ∷ 0 ∷ []

pointing_read : parse_qname pointing 1 ≡ some (5, codes "a")
unfolding parse_qname parse_loop without_dot
pointing_read = refl

parse_qname_bounds_example : (5 ≤ 5) × (1 ≤ 16 * 192)
parse_qname_bounds_example = parse_qname_bounds pointing 1 5 (codes "a") pointing_read

-- A pointer to itself ends the reading.
endless : parse_qname (192 ∷ 0 ∷ []) 0 ≡ none
unfolding parse_qname parse_loop
endless = refl

alpha-Looked :
    Looked sample_inet domain (alpha ∷ []) question (some (100 * 16777216 + 7, replicate 16 1))
alpha-Looked = ([], alpha, [], refl, tt, inr (inl refl), refl, refl, refl, refl)

answer_question_example :
    answer sample_inet (packet question) domain (alpha ∷ [])
    ≡ some (
        1
        ∷ 2
        ∷ 129
        ∷ 128
        ∷ 0
        ∷ 1
        ∷ 0
        ∷ 1
        ∷ 0
        ∷ 0
        ∷ 0
        ∷ 0
        ∷ (encoded labels
            ++ 0 ∷ 1 ∷ 0 ∷ 1 ∷ 192 ∷ 12 ∷ 0 ∷ 1 ∷ 0 ∷ 1 ∷ 0 ∷ 0 ∷ 0 ∷ 30 ∷ 0 ∷ 4 ∷ 100 ∷ 0 ∷ 0 ∷ 7
              ∷ []))
answer_question_example =
    answer_question sample_inet domain (alpha ∷ []) question question-IsAsked
      (some (100 * 16777216 + 7, replicate 16 1)) alpha-Looked
