-- ===== src/Examples/Machine.antt =====
-- A machine whose files are in memory, and stand-ins for the crates and the functions that the
-- executors call.
use incubator_mesatee.Base.{
  Text, utf8, ◌≡◌, refl, ap, sym, Bool, List, [], ◌∷◌, ◌++◌, none, some, Result, ok, err, Action,
  length, eqb, ◌-◌, ◌∙◌,
}
use incubator_mesatee.Base.Bytes.{truncate, truncate-append}
use incubator_mesatee.Base.HashMap.{HashMap, get, insert}
use incubator_mesatee.Examples.World.{tag}
use incubator_mesatee.Execution.Platform.{
  Platform, FileAgentRequest, HandleFileInfo, download, upload,
}
use incubator_mesatee.Execution.Worker.{Library}
use incubator_mesatee.Functions.Small
use incubator_mesatee.Types.Function.{FunctionArguments}
use incubator_mesatee.Types.Aead.{Aead, aes_128_gcm, aes_256_gcm}
use incubator_mesatee.Types.Runtime.{Failure, error, Runtime}

abbrev pub Files : Type 0
Files = HashMap Text

abbrev content : Files → Text → Result Failure Text
content m path = elim (get m path) [
  | none ↦ err (error (utf8 "no such file"))
  | some bytes ↦ ok bytes
]

unfoldable pub append : Text → Text → Files → Files
append path bytes m = elim (get m path) [
  | none ↦ insert m path bytes
  | some old ↦ insert m path (old ++ bytes)
]

unfoldable pub transfer :
    FileAgentRequest → List HandleFileInfo → Files → Result Failure (Unit {0}) × Files
transfer request [] m = (ok tt, m)
transfer request (info ∷ infos) m =
    let (from, to) : Text × Text = elim request.cmd [
      | download ↦ (info.remote, info.local)
      | upload ↦ (info.local, info.remote)
    ] in
    elim (get m from) [
      | none ↦ (err (error (utf8 "cannot transfer")), m)
      | some bytes ↦ transfer request infos (insert m to bytes)
    ]

abbrev pub machine : Platform
machine = record {
  Machine = Files;
  ProtectedFile = Text;
  random = λ m. (record { key = utf8 "random key 16 by" }, m);
  exists = λ path m. Bool.false;
  create_dir_all = λ path m. (ok tt, m);
  soft_link = λ src dst m. (ok tt, m);
  read_file = λ path m. (content m path, m);
  open_ex = λ path key m. (elim (content m path) [ ok bytes ↦ ok path | err e ↦ err e ], m);
  create_ex = λ path key m. (ok path, insert m path []);
  current_meta_gmac = λ file m. (ok tag.tag, m);
  read_to_end = λ file m. (content m file, m);
  read =
      λ file n m. (elim (content m file) [ ok bytes ↦ ok (truncate n bytes) | err e ↦ err e ], m);
  buffers = λ file m. content m file ∷ [];
  write = λ file bytes m. (ok (length bytes), append file bytes m);
  write_all = λ file bytes m. (ok tt, append file bytes m);
  flush = λ file m. (ok tt, m);
  handle_file_request = λ request m. transfer request request.info m;
  url_path = λ url. url;
  show_uuid = λ n. n ∷ [];
  from_utf8_lossy = λ s. s;
  from_utf8_lossy_lem = λ s h. refl;
}

abbrev pub no_tag : Text
no_tag = 0 ∷ 0 ∷ 0 ∷ 0 ∷ 0 ∷ 0 ∷ 0 ∷ 0 ∷ 0 ∷ 0 ∷ 0 ∷ 0 ∷ 0 ∷ 0 ∷ 0 ∷ 0 ∷ []

abbrev opened : Text → Text × Text
opened s = (truncate (length s - 16) s, no_tag)

pub open-seal :
    (plain : Text) {sealed : Text}
    → some (plain ++ no_tag) ≡ some sealed
    → (rest : Text) × (some (opened sealed) ≡ some (plain, rest))
open-seal plain e =
    let q : plain ++ no_tag ≡ _ = cc e in
    (
      no_tag,
      ap (λ s. some (opened s)) (sym q)
          ∙ ap (λ p. some (p, no_tag)) (truncate-append plain no_tag 16 refl),
    )

-- sealing appends sixteen bytes and hides nothing
abbrev pub plain_aead : Aead
plain_aead = record {
  key_len = λ alg. elim alg [ aes_128_gcm ↦ 16 | aes_256_gcm ↦ 32 ];
  new_key = λ alg key. eqb (length key) (elim alg [ aes_128_gcm ↦ 16 | aes_256_gcm ↦ 32 ]);
  new_key_lem = λ alg key. refl;
  tag_len = λ alg. 16;
  tag_len_lem = λ alg. refl;
  open_in_place = λ alg key nonce aad s. some (opened s);
  seal_append_tag = λ alg key nonce aad plain. some (plain ++ no_tag);
  open-seal = λ alg key nonce aad plain e. open-seal plain e;
  length-seal = λ alg key nonce aad plain e. (plain, no_tag, cc e, refl, refl);
  length-open =
      λ alg key nonce aad s plain rest e. let q : no_tag ≡ rest = cc e in ap length (sym q);
}

abbrev pub plain_crates : Small.Crates
plain_crates = record {
  base64_decode = λ s. some s;
  base64_encode = λ s. s;
  decode-encode = λ s. refl;
  sign = λ key message. none;
}

abbrev absent : (r : Runtime) → FunctionArguments → Action r.State Failure Text
absent r arguments s = (err (error (utf8 "not installed")), s)

abbrev pub library : Library
library = record {
  aead = plain_aead;
  crates = plain_crates;
  hex_decode = λ s. ok s;
  echo_arguments = λ a. ok (record { message = utf8 "hello" });
  decrypt_arguments = λ a. err (error (utf8 "no arguments"));
  rsa_arguments = λ a. err (error (utf8 "no arguments"));
  join_arguments = λ a. ok (record { num_user = 2 });
  intersect_arguments = λ a. ok (record { order = utf8 "ascending" });
  gbdt_predict = absent;
  gbdt_train = absent;
  logistic_regression_predict = absent;
  logistic_regression_train = absent;
  principal_components_analysis = absent;
  face_detection = absent;
  argument_text = λ v. v;
  mesapy_exec = λ r script argv len s. ((2, utf8 "ok"), s);
}
