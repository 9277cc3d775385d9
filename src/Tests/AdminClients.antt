-- ===== src/Tests/AdminClients.antt =====
-- Tests of server/pkg/rpcclient/client.go and server/pkg/adminserver/client.go.
use moblog_cloud.Prelude.{
  ℕ, GoString, codes, contains, [], ◌∷◌, Result, ok, err, message, ◌≡◌, ◌≢◌, ◌↔◌, refl, arith,
  ok_inj, sym, ap, ◌∙◌,
}
use moblog_cloud.Http.{Cookie, zero_cookie, Url, HttpReply, HttpClient}
use moblog_cloud.IdGenerator.{next}
use moblog_cloud.RpcClient.{Codec, new, call}
use moblog_cloud.RpcClient.Replies.{Accepted, call-Accepted, call-ne-earlier}
use moblog_cloud.AdminClient.{
  Client, Params, whoami_args, NetLibrary, Decoders, host_of, login, logout,
}
use moblog_cloud.AdminClient.Cookies.{IsCookie, Hosted, made, entered, Reach-IsCookie}
use moblog_cloud.AdminClient.Answers.{logout_lem}

-- A codec whose texts are the identifiers, and a decoder of any result.
abbrev id_codec : Codec Params
id_codec = record {
  encode = λ request. ok request.id;
  decode_reply = λ text. ok (record { id = text; error = []; result = codes "r" });
}

abbrev decoder : GoString → Result GoString
decoder text = ok text

abbrev sessions_cookie : Cookie
sessions_cookie = record zero_cookie {
  name = codes "auth";
  value = codes "s1";
  expires = 63000000000000000000;
}

-- A server that answers with the body of the request, or always with the same body.
abbrev echoing : HttpClient (Unit {0})
echoing = record {
  post = λ url type body n.
      (ok (record { status = 200; body = body; cookies = sessions_cookie ∷ [] }), n);
  set_cookies = λ url cookies n. n;
}

abbrev answering : ℕ → GoString → HttpClient (Unit {0})
answering status body = record {
  post = λ url type sent n. (ok (record { status = status; body = body; cookies = [] }), n);
  set_cookies = λ url cookies n. n;
}

abbrev net : NetLibrary
net = record {
  url_parse = λ url. ok (record { host = codes "admin"; path = codes "/api" });
  split_host_port = λ host. err (message []);
  encode_values = λ values. [];
}

abbrev decode : Decoders
decode = record {
  nothing = λ text. ok tt;
  user = λ text. err (message text);
  blog = λ text. err (message text);
  blogs = λ text. ok [];
}

abbrev client : Client
client = record {
  url = codes "http://admin/api";
  rpc = new (codes "http://admin/api");
  auth_cookie = zero_cookie;
}

call-Accepted_example :
    ((call echoing id_codec decoder (codes "Users.Whoami") whoami_args client.rpc tt).0
      ≡ ok (codes "r"))
    ↔ Accepted echoing id_codec decoder (codes "Users.Whoami") whoami_args client.rpc tt (codes "r")
call-Accepted_example =
    call-Accepted echoing id_codec decoder (codes "Users.Whoami") whoami_args client.rpc tt
      (codes "r")

call-ne-earlier_example :
    (call
      (answering 200 (codes "1"))
      id_codec
      decoder
      (codes "Users.Whoami")
      whoami_args
      (record client.rpc { id_generator = record { last_id = 1 } })
      tt).0
    ≢ ok (codes "r")
unfolding next
call-ne-earlier_example =
    call-ne-earlier (answering 200 (codes "1")) id_codec decoder (codes "Users.Whoami") whoami_args
      (record client.rpc { id_generator = record { last_id = 1 } }) tt (codes "r") 0
      (record { last_id = 0 }) (record { status = 200; body = codes "1"; cookies = [] })
      (record { id = codes "1"; error = []; result = codes "r" }) (omega arith) refl (λ body. refl)
      refl refl

named : host_of net (codes "admin") ≡ ok (codes "admin")
unfolding contains
named = refl

Reach-IsCookie_example : IsCookie (login net echoing [] [] client tt).1.auth_cookie
Reach-IsCookie_example =
    Reach-IsCookie net echoing id_codec decode (entered (made client.url) [] [] tt) hosted
  where
    hosted : Hosted net client.url
    hosted u host parsed h none_there = absurd (
        cc (
          ok_inj (sym named ∙ ap (λ (v : Url). host_of net v.host) (ok_inj parsed) ∙ h)
          ∙ none_there))

abbrev with_cookie : HttpReply
with_cookie = record { status = 200; body = []; cookies = sessions_cookie ∷ [] }

abbrev failing : HttpReply
failing = record { status = 500; body = []; cookies = [] }

logout_lem_example :
    let (result, after, _) = logout net (answering 500 []) client tt in
    (result ≡ ok tt)
    × (failing.status ≡ 200 → after.auth_cookie ≡ zero_cookie)
    × (failing.status ≢ 200 → after ≡ client)
logout_lem_example = logout_lem net (answering 500 []) client tt failing refl
