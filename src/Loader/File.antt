-- ===== src/Loader/File.antt =====
-- internal/omny/config.go: `Parse` and `Load`, of an opened file. The YAML decoder, which sets the
-- fields that a document has, is an argument.
use omny.Base.{
  Option-cases, ℕ, ◌%◌, ◌≡◌, refl, sym, ap, ◌∙◌, Bool, false, not, ◌&&◌, [], Option, none, some,
  Bytes, bytes, arith, ◌==◌, ◌>>=◌, >>=-some, if◌then◌else◌, Bool-cases, inl, inr, none_ne_some,
  some_inj, subst,
}
use omny.Config.{Config}
use omny.Loader.{is_empty, check, load}
use omny.Loader.Accepted.{IsAccepted, load-IsAccepted}

-- The file as it is opened: its permission bits, none where `Stat` fails, and its bytes.
pub record File : Type 0 where
  pub mode : Option ℕ
  pub content : Bytes

-- What the decoder makes of a configuration: a new one, io.EOF of an empty document, or another error.
pub data Decoded : Type 0 where
  decoded : Config → Decoded
  at_eof bad_yaml : Decoded

-- The configuration that the decoder starts from.
abbrev pub defaults : Config
defaults = record {
  listen = bytes "127.0.0.1:8080";
  token = [];
  tokens = [];
  state = bytes "./omny.state.json";
  pid = bytes "./omny.pid";
  default = [];
  fallback = [];
  providers = [];
  aliases = [];
}

-- `m&0o077 != 0`, of the nine permission bits.
unfoldable pub lax : ℕ → Bool
lax m = not (m % 64 == 0)

module _ (windows : Bool) (decode : Config → Bytes → Decoded) where
  unfoldable pub of_decoded : Decoded → Option Config
  of_decoded (decoded c) = some c
  of_decoded at_eof = some defaults
  of_decoded bad_yaml = none

  -- `Parse`, of the bytes and the mode of an opened file.
  unfoldable pub parse_mode : ℕ → Bytes → Option Config
  parse_mode m b = if not windows && lax m then none else of_decoded (decode defaults b)

  -- `Parse`, of a file that may not open.
  unfoldable pub parse_file : Option File → Option Config
  parse_file none = none
  parse_file (some f) = f.mode >>= λ m. parse_mode m f.content

  module _ (split_host_port : Bytes → Option Bytes) (parse_url : Bytes → Option (Bytes × Bytes))
      (blank : Bytes → Bool) where
    -- `Load`.
    unfoldable pub load_file : Option File → Option Config
    load_file none = none
    load_file (some f) =
        f.mode >>= λ m. load split_host_port parse_url blank (parse_mode m) f.content

    -- `Load` is `check` after `Parse`.
    pub load_file_lem :
        (o : Option File)
        → load_file o ≡ (
            parse_file o >>= λ c.
            if is_empty (check split_host_port parse_url blank c) then some c else none)
    unfolding load_file load parse_file
    load_file_lem none = refl
    load_file_lem (some f) = elim (Option-cases f.mode) [
      | inl e ↦ rw e refl
      | inr (m, e) ↦ rw e refl
    ]

    -- An empty document sets no token, so it is not accepted.
    of_decoded_lem :
        (d : Decoded) (c : Config)
        → of_decoded d ≡ some c
        → IsAccepted split_host_port parse_url blank c
        → d ≡ decoded c
    unfolding of_decoded
    of_decoded_lem (decoded c') c h a = ap decoded (some_inj h)
    of_decoded_lem at_eof c h a =
        let v = subst (IsAccepted split_host_port parse_url blank) (sym (some_inj h)) a in
        absurd (elim v.has_token [ inl n ↦ n refl | inr n ↦ n refl ])
    of_decoded_lem bad_yaml c h a = absurd (none_ne_some h)

    loaded :
        (m : ℕ) (b : Bytes) (c : Config)
        → load split_host_port parse_url blank (parse_mode m) b ≡ some c
        → parse_mode m b ≡ some c
    unfolding load
    loaded m b c h =
        let (c', e, k) = >>=-some (parse_mode m b) _ h in
        elim (Bool-cases (is_empty (check split_host_port parse_url blank c'))) [
          | inl f ↦ e ∙ rw f at k
          | inr f ↦ absurd (none_ne_some (rw f at k))
        ]

    parsed_lem :
        (m : ℕ) (b : Bytes) (c : Config)
        → parse_mode m b ≡ some c
        → IsAccepted split_host_port parse_url blank c
        → (windows ≡ false → m % 64 ≡ 0) × (decode defaults b ≡ decoded c)
    unfolding parse_mode lax
    parsed_lem m b c h a = elim (Bool-cases (not windows && not (m % 64 == 0))) [
      | inl e ↦ absurd (none_ne_some (rw e at h))
      | inr e ↦ (λ w. ground (arith, e, w), of_decoded_lem (decode defaults b) c (rw e at h) a)
    ]

    -- A file whose configuration is loaded was opened and is private to its owner, except on Windows, it
    -- is no empty document, and what the decoder made of it and the defaults is accepted.
    pub load_file-IsAccepted :
        (o : Option File) (c : Config)
        → load_file o ≡ some c
        → (f : File) × (m : ℕ) × (o ≡ some f)
          × (f.mode ≡ some m)
          × (windows ≡ false → m % 64 ≡ 0)
          × (decode defaults f.content ≡ decoded c)
          × IsAccepted split_host_port parse_url blank c
    unfolding load_file
    load_file-IsAccepted none c h = absurd (none_ne_some h)
    load_file-IsAccepted (some f) c h =
        let (m, e, k) = >>=-some f.mode _ h in
        let a = load-IsAccepted split_host_port parse_url blank (parse_mode m) f.content c k in
        let (closed, d) = parsed_lem m f.content c (loaded m f.content c k) a in
        (f, m, refl, e, closed, d, a)
