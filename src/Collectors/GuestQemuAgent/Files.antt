-- ===== src/Collectors/GuestQemuAgent/Files.antt =====
-- Which part of a file mom/Collectors/GuestQemuAgent.py reads.
use mom.Prelude.{ℕ, suc, ◌<◌, ◌≡◌, refl, String, true, false, some, ok, Result, ◌>>=◌, ltb, arith}
use mom.Prelude.Dict.{lookup}
use mom.Hypervisor.Json.{Json, Fields, txt, obj, dict_of, truthy}
use mom.IoTune.Equality
use mom.GuestNetwork.Socket.{take, drop}
use mom.Python.Value.{Error}
use mom.GuestAgent.{Ret}
use mom.Collectors.GuestQemuAgent.{
  Agent, answered, block, from_bytes, agent_cmd, read_blocks, getfile,
}

-- An agent that serves a file: what is left to read behind a handle is `left`. The commands succeed; a
-- read gives the next bytes, as many as are asked for and there, as the buf of a dictionary of a few
-- entries, and moves on behind them.
pub record Serves {S : Type 0} (agent : Agent S) (path contents : String) (left : S → Json → String)
    : Type 0 where
  pub opening :
      (s : S)
      → (r : Ret) × (s' : S) × (agent.file_open path s ≡ (ok r, s'))
        × (truthy r.error ≡ false)
        × (left s' r.result ≡ contents)
  pub reading :
      (handle : Json) (n : ℕ) (s : S)
      → (r : Ret) × (s' : S) × (fs : Fields) × (agent.file_read handle n s ≡ (ok r, s'))
        × (truthy r.error ≡ false)
        × (r.result ≡ obj fs)
        × (lookup "buf" (dict_of fs) ≡ some (txt (take n (left s handle))))
        × (Equality.size fs < 1024)
        × (left s' handle ≡ drop n (left s handle))
  pub closing :
      (handle : Json) (s : S)
      → (r : Ret) × (s' : S) × (agent.file_close handle s ≡ (ok r, s')) × (truthy r.error ≡ false)

block-text :
    (fs : Fields) (text : String)
    → lookup "buf" (dict_of fs) ≡ some (txt text)
    → block (obj fs) ≡ ok (text, Equality.size fs)
block-text fs text h = rw (block, h)

few_entries : (n : ℕ) → n < 1024 → ltb n 1024 ≡ true
few_entries n h = ground arith

-- If the agent serves the file, in replies of fewer than 1024 entries each, then getfile returns the
-- first 1024 bytes of it, decoded, or raises the exception of their decoding, whatever the fuel above
-- zero, the maximum and the length of the file are.
pub getfile-first :
    {S : Type 0} (agent : Agent S) (path contents : String) (left : S → Json → String)
    (decode : String → Result Error String) (fuel maximum : ℕ) (s : S)
    → Serves agent path contents left
    → (s' : S) × (getfile decode (suc fuel) maximum agent path s
        ≡ (from_bytes (decode (take 1024 contents)), s'))
unfolding getfile read_blocks agent_cmd answered ◌>>=◌
getfile-first agent path contents left decode fuel maximum s serves =
    let (opened, s₁, o, oe, all) = serves.opening s in
    let (first, s₂, fs, r, re, rd, b, few, moved) = serves.reading opened.result 1024 s₁ in
    let (closed, s₃, c, ce) = serves.closing opened.result s₂ in
    (s₃, rw (o, oe, r, re, rd, block-text fs _ (rw all at b), few_entries _ few, c, ce) refl)
