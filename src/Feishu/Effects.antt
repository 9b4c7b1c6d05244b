-- ===== src/Feishu/Effects.antt =====
-- What the directives do to the world.
use esr.Base.{◌≡◌, refl, Bool, false, Option, none, some, List, [], ◌∷◌, Str, lit, All, ◌++◌, ◌==◌}
use esr.Base.Result.{Result, ok, err, Failure}
use esr.Value.{Value, str, value_get}
use esr.Value.Access.{index}
use esr.Adapters.{AdapterConfig}
use esr.Feishu.Parsers.{is_text}
use esr.Feishu.Retry.{within, with_ratelimit_retry-within, error_ack}
use esr.Feishu.Services.{Io, Services, Files, local_url}
use esr.Feishu.Directives.{
  Ack, base_url, send_message, react, un_react, send_card, pin, unpin, send_file, send_decoded,
}
use esr.Feishu.Download.{
  retrying, downloaded, then_unlink, meta_of, download_file, on_directive, or_text, default_ext_for,
}

module _ {A : Type 0} (services : Services A) (files : Files A) (actor_id : Str)
    (config : AdapterConfig) where
  -- The directives that are tried again, with the calls that they make.
  abbrev pub retried : List (Str × (Value → Io A Ack))
  retried =
      (lit "send_message", send_message services actor_id config)
      ∷ (lit "send_card", send_card services actor_id config)
      ∷ (lit "pin", pin services actor_id config)
      ∷ (lit "unpin", unpin services actor_id config)
      ∷ (lit "react", react services actor_id config)
      ∷ (lit "un_react", un_react services actor_id config)
      ∷ []

  tried :
      (fn : Io A Ack) (a : A)
      → retrying services files actor_id config fn a ≡ within services.float_eq fn 5 a
  tried fn a = (with_ratelimit_retry-within services.float_eq fn a).0

  -- Where the adapter's address is not that of the local stand-in, each of the directives on messages
  -- is the first of up to five calls that is not refused for its rate, or else a timeout.
  pub on_directive-within :
      (args : Value) (a : A)
      → local_url (base_url services actor_id config) ≡ ok none
      → All
          (λ c.
            on_directive services files actor_id config (str c.0) args a
            ≡ within services.float_eq (c.1 args) 5 a)
          retried
  unfolding on_directive ◌==◌
  on_directive-within args a live = (
    tried (send_message services actor_id config args) a,
    (
      tried (send_card services actor_id config args) a,
      (
        tried (pin services actor_id config args) a,
        (
          tried (unpin services actor_id config args) a,
          (
            rw live (tried (react services actor_id config args) a),
            (rw live (tried (un_react services actor_id config args) a), tt),
          ),
        ),
      ),
    ),
  )

  -- Does the decoded content have that digest?
  abbrev pub matches : Result Str Str → Value → Bool
  matches (err text) expected = false
  matches (ok bytes) expected = is_text expected (services.sha256 bytes)

  -- A file whose content cannot be decoded, or has not the digest that was announced, is refused
  -- before anything is sent.
  pub send_file_refuses :
      (args chat_id file_name content expected : Value) (a : A)
      → index args (lit "chat_id") ≡ ok chat_id
      → index args (lit "file_name") ≡ ok file_name
      → index args (lit "content_b64") ≡ ok content
      → index args (lit "sha256") ≡ ok expected
      → matches (services.b64decode content) expected ≡ false
      → (error : Str) × (on_directive services files actor_id config (str (lit "send_file")) args a
          ≡ (ok (error_ack error), a))
  unfolding on_directive send_file ◌==◌
  send_file_refuses args chat_id file_name content expected a c n b x h =
      rw (c, n, b, x) (refused (services.b64decode content) h)
    where
      refused :
          (r : Result Str Str)
          → matches r expected ≡ false
          → (error : Str) × (send_decoded services actor_id config chat_id file_name expected r a
              ≡ (ok (error_ack error), a))
      refused (err text) k = (lit "b64 decode failed: " ++ text, refl)
      refused (ok bytes) k = (lit "sha256 mismatch", rw (send_decoded, k) refl)

  unlinked :
      (path : Str) (r : Result Failure (Result Str Value) × A)
      → (then_unlink services files actor_id config path r).1 ≡ files.unlink path r.1
  unlinked path (err f, a) = refl
  unlinked path (ok r, a) = refl

  -- Whatever the store makes of a file that was downloaded, raising included, the removal of the copy
  -- from which it takes the bytes is the last thing that the directive does.
  pub download_file_unlinks :
      (args msg_id file_key file_name msg_type chat_id : Value) (local : Option Str)
      (bytes path : Str) (a b saved : A)
      → index args (lit "msg_id") ≡ ok msg_id
      → index args (lit "file_key") ≡ ok file_key
      → index args (lit "file_name") ≡ ok file_name
      → index args (lit "msg_type") ≡ ok msg_type
      → value_get args (lit "chat_id") (str []) ≡ ok chat_id
      → local_url (base_url services actor_id config) ≡ ok local
      → downloaded services files actor_id config local msg_id file_key msg_type a
        ≡ (ok (some bytes), b)
      → files.write_temp (or_text (files.suffix file_name) (default_ext_for msg_type)) bytes b
        ≡ (ok path, saved)
      → (last : A) × ((on_directive services files actor_id config
            (str (lit "download_file"))
            args
            a).1
          ≡ files.unlink path last)
  unfolding on_directive download_file ◌==◌
  download_file_unlinks args msg_id file_key file_name msg_type chat_id local bytes path a b saved i
        k n t c u got wrote =
      (
        (files.store msg_type path
            (meta_of services files actor_id config msg_id file_key file_name chat_id) saved).1,
        rw (i, k, n, t, c, u, got, wrote) (unlinked path _),
      )
