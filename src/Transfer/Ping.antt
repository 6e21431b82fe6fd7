-- ===== src/Transfer/Ping.antt =====
-- A ping of the relay on the connection for data, which nothing there takes for one.
use rust_croc.Common.{suc, ◌≡◌, List, [], ◌∷◌, ◌++◌, length, Bytes}
use rust_croc.Net.{Net}
use rust_croc.Crypto.{Primitives}
use rust_croc.Crypto.{decrypt}
use rust_croc.Enc.{EncryptedSession}
use rust_croc.Files.{File, FileOps}
use rust_croc.Fs.{write_chunk, fs_writer_task}
use rust_croc.Transfer.{receive_chunks}
use rust_croc.Transfer.AnyOrder.{receive_chunks_lem}

module _ (net : Net) (prim : Primitives) (fs : FileOps) (d : EncryptedSession net prim) where
  -- For any messages, any file and any session: where a ping of the relay comes in in front of the
  -- messages for the chunks, the receiving loop, whose number of rounds is that of the chunks,
  -- counts it as one of them, writes all messages but the last, which it leaves in the channel, and
  -- ends.
  pub ping_displaces_chunk :
      (ms : List Bytes) (last : Bytes) (f : File)
      → receive_chunks net prim fs d (suc (length ms)) ((1 ∷ []) ∷ (ms ++ (last ∷ []))) f
        ≡ (fs_writer_task net prim fs d ms f, last ∷ [])
  unfolding receive_chunks write_chunk fs_writer_task decrypt
  ping_displaces_chunk ms last f = receive_chunks_lem net prim fs d ms (last ∷ []) f
