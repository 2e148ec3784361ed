-- ===== src/Tests/Records.antt =====
-- A write in two records' worth of pieces, and a read of its first byte.
use wirebone_cpp.Prelude.{
  ℕ, ◌≡◌, ◌≤◌, ◌<◌, ◌++◌, refl, ap, List, [], ◌∷◌, codes, length, take, drop, replicate, pos, ok,
  arith,
}
use wirebone_cpp.Noise.Records.{
  NoiseConn, put_be64, record_nonce, read, write, write_rounds, write_record, decrypt_one,
  decrypt_body, decrypt_text, fill,
}
use wirebone_cpp.Noise.Transport.{
  Channel, IsFresh, Reach, here, after, writes, reads, delivered, received_in_order, read_progress,
}
use wirebone_cpp.Http2.Output.{Sent, sent_of, answered, send_cb, Told, send_cb-Told}
use wirebone_cpp.Crypto.Hkdf.{aead_seal, aead_open}
use wirebone_cpp.Samples.{sample_primitives}
use wirebone_cpp.Socket.{recv_from, read_loop, read_full, write_loop, write_full}

abbrev end : List ℕ → NoiseConn
end room = record {
  socket = record { incoming = []; room = room; sent = [] };
  tx_key = replicate 32 5;
  rx_key = replicate 32 5;
  tx_nonce = 0;
  rx_nonce = 0;
  plaintext = [];
}

abbrev start : Channel
start = record { sender = end (2 ∷ 100 ∷ 100 ∷ []); receiver = end []; written = []; received = [] }

abbrev sealed : List ℕ
sealed = 4 ∷ 0 ∷ 18 ∷ (codes "hi" ++ replicate 16 0)

abbrev sent : NoiseConn
sent = record (end (100 ∷ [])) {
  socket = record { incoming = []; room = []; sent = sealed };
  tx_nonce = 1;
}

abbrev pieces : List (List ℕ)
pieces = take 5 sealed ∷ drop 5 sealed ∷ []

abbrev wrote : Channel
wrote = record {
  sender = sent;
  receiver = delivered pieces (end []);
  written = codes "hi";
  received = [];
}

start-IsFresh : IsFresh sample_primitives start
start-IsFresh = record {
  key = refl;
  counter = refl;
  empty = refl;
  silent = refl;
  nothing_written = refl;
  nothing_received = refl;
}

write_runs :
    write sample_primitives (codes "hi") start.sender ≡ (ok (pos (length (codes "hi"))), sent)
unfolding write write_rounds write_record write_full write_loop aead_seal record_nonce put_be64
write_runs = refl

wrote-Reach : Reach sample_primitives start wrote
wrote-Reach = after here (writes (codes "hi") sent pieces write_runs (omega arith) refl refl)

abbrev one_read : Channel
one_read = record wrote {
  receiver = (read sample_primitives 1 wrote.receiver).1;
  received = codes "h";
}

one_read-Reach : Reach sample_primitives start one_read
unfolding read fill decrypt_one decrypt_body decrypt_text read_full read_loop recv_from aead_open
    record_nonce put_be64
one_read-Reach = after wrote-Reach (reads 1 (omega arith) (omega arith) refl)

received_in_order_example : (rest : List ℕ) × (codes "h" ++ rest ≡ codes "hi")
received_in_order_example =
    received_in_order sample_primitives start one_read start-IsFresh one_read-Reach

read_progress_example :
    (0 < length (read sample_primitives 1 wrote.receiver).0)
    × (length (read sample_primitives 1 wrote.receiver).0 ≤ 1)
read_progress_example =
    read_progress sample_primitives start wrote 1 start-IsFresh wrote-Reach (omega arith)
      (omega arith)

told_two : send_cb sample_primitives (codes "hi") start.sender ≡ (ok (Sent.wrote 2), sent)
unfolding send_cb sent_of
told_two = ap answered write_runs

send_cb-Told_example : Told sample_primitives 2 (Sent.wrote 2)
send_cb-Told_example =
    send_cb-Told sample_primitives 104 (codes "i") start.sender sent (Sent.wrote 2) (omega arith)
      told_two
