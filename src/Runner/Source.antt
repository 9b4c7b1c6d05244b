-- ===== src/Runner/Source.antt =====
-- The address under which a runner speaks.
use esr.Base.{
  ◌≡◌, refl, none, [], ◌∷◌, ◌++◌, Str, lit, Dict, Free, Free-append, cut, cut-append, remove_prefix,
  contains, ◌==◌, starts_with-append, drop-append, arith,
}
use esr.Base.Result.{ok}
use esr.Value.{Value}
use esr.Uri.{parse}
use esr.Uri.RoundTrip.{IsHost, IsSegment, expected, parse-build_path}
use esr.Runner.{topic_of, halves, source_of}

remove_prefix-append : (p s : Str) → remove_prefix (p ++ s) p ≡ s
unfolding remove_prefix
remove_prefix-append p s = rw (starts_with-append p s) (drop-append p s)

prefix-Free : Free b'/' (lit "adapter:")
prefix-Free = omega arith

localhost-IsHost : IsHost (lit "localhost")
localhost-IsHost = record {
  full = refl;
  no_slash = omega arith;
  no_query = omega arith;
  no_at = omega arith;
  no_colon = omega arith;
}

-- The halves of a topic.
halves-topic_of :
    (name id : Str)
    → Free b'/' name
    → halves (topic_of name id) (cut b'/' (topic_of name id)) ≡ (lit "adapter:" ++ name, id)
unfolding topic_of
halves-topic_of name id h =
    rw
      (cut-append b'/' (lit "adapter:" ++ name) id
        (Free-append b'/' (lit "adapter:") name prefix-Free h))
      refl

module _ (decode : Str → Dict Str) (encode : Dict Value → Str) where
  -- For an adapter's name and an instance's id that are not empty and hold no slash and no question
  -- mark, a runner's address can be built from its topic, and it is parsed to the host `localhost`, the
  -- type `adapters` and the path of the name and the id.
  pub source_of-topic_of :
      (name id : Str)
      → IsSegment name
      → IsSegment id
      → (text : Str) × (source_of encode (topic_of name id) ≡ ok text)
        × (parse decode text
            ≡ ok (
                expected decode encode none
                  (lit "localhost")
                  none
                  (lit "adapters")
                  (name ∷ id ∷ [])
                  []))
  unfolding source_of contains ◌==◌
  source_of-topic_of name id h k =
      let (text, built, read) =
        parse-build_path decode encode none (lit "localhost") none (lit "adapters") (name ∷ id ∷ [])
          [] tt localhost-IsHost refl refl (omega arith)
          ((refl, omega arith, omega arith), (h, (k, tt))) in
      (
        text,
        rw (halves-topic_of name id h.1, remove_prefix-append (lit "adapter:") name) built,
        read,
      )
