-- ===== src/Tests/Git.antt =====
-- Tests of server/pkg/gitserver.
use moblog_cloud.Prelude.{
  ◌≢◌, ℕ, suc, zero, ◌+◌, GoString, codes, ◌==◌, [], ◌∷◌, ◌++◌, List, none, some, ok, ◌⊎◌, ◌≡◌,
  refl, arith, length, true, false, ◌≤◌, ◌<◌, ◌-◌, panic,
}
use moblog_cloud.Http.{Cookie, just, status_ok}
use moblog_cloud.UserStore.{User, Blog, valid_alphanumeric}
use moblog_cloud.GitServer.{remove_git_repository_suffix, has_suffix}
use moblog_cloud.GitServer.{git_suffix}
use moblog_cloud.GitServer.Suffix.{remove_git_repository_suffix_lem}
use moblog_cloud.GitServer.Packets.{write_git_packet}
use moblog_cloud.GitServer.Packets.RoundTrip.{
  read_git_packet, hex_number, read-write_git_packet, write_git_packet_overflow,
}
use moblog_cloud.GitServer.Paths.Inside.{repository_path-injective}
use moblog_cloud.GitServer.Handlers.{
  AdminClient, Host, JobQueue, State, Request, RenderJob, with_valid_repository, serve_receive_pack,
  client_accepts,
}
use moblog_cloud.GitServer.Handlers.Access.{here, IsOwner}
use moblog_cloud.GitServer.Handlers.Pushes.{
  Posted, push_job, receive_pack-posts, receive_pack-renders,
}
use moblog_cloud.Tests.Fixtures.{anna, travel}

remove_git_repository_suffix_lem_example :
    (codes "travel" ≡ remove_git_repository_suffix (codes "travel") ++ git_suffix)
    ⊎ ((remove_git_repository_suffix (codes "travel") ≡ codes "travel")
        × ((r : GoString) → codes "travel" ≢ r ++ git_suffix))
remove_git_repository_suffix_lem_example = remove_git_repository_suffix_lem (codes "travel")

read-write_git_packet_example :
    (out : GoString) × (write_git_packet (codes "# service=git-upload-pack") ≡ ok out)
    × (read_git_packet (out ++ codes "0000")
        ≡ some (codes "# service=git-upload-pack", codes "0000"))
read-write_git_packet_example =
    read-write_git_packet (codes "# service=git-upload-pack") (codes "0000") (omega arith)

zeros : ℕ → GoString
zeros zero = []
zeros (suc n) = b'0' ∷ zeros n

length-zeros : (n : ℕ) → length (zeros n) ≡ n
unfolding zeros
length-zeros zero = refl
length-zeros (suc n) = omega (arith, length-zeros n)

write_git_packet_overflow_example :
    ((length (zeros 40000) ≤ 65531)
      × ((digits : GoString) × (write_git_packet (zeros 40000)
            ≡ ok (b'-' ∷ (digits ++ zeros 40000)))
          × (hex_number 0 digits ≡ some (65536 - (length (zeros 40000) + 4)))
          × (read_git_packet (b'-' ∷ (digits ++ zeros 40000) ++ []) ≡ none)))
    ⊎ ((65531 < length (zeros 40000)) × (write_git_packet (zeros 40000) ≡ panic))
write_git_packet_overflow_example =
    write_git_packet_overflow (zeros 40000) [] (omega (arith, length-zeros 40000))

repository_path-injective_example :
    (codes "anna" ≡ codes "anna") × (codes "travel" ≡ codes "travel")
unfolding valid_alphanumeric
repository_path-injective_example =
    repository_path-injective (codes "/git") (codes "anna") (codes "travel") (codes "anna")
      (codes "travel") refl refl refl refl refl

abbrev cookie : Cookie
cookie = record {
  name = codes "auth";
  value = codes "s1";
  path = codes "/";
  domain = codes "localhost";
  secure = false;
  expires = 100;
  http_only = true;
}

abbrev pub admin : AdminClient
admin = record { connect = λ c. ok tt; whoami = λ c. ok anna; list_blogs = λ c. ok (travel ∷ []) }

abbrev pub host : Host ℕ
host = record {
  is_dir = λ path h. ok true;
  mkdir_all = λ path h. (ok tt, h);
  remove_all = λ path h. h;
  run_git = λ args h. (ok tt, h + 1);
  has_output = λ args h. true;
}

abbrev pub queue : JobQueue (List RenderJob)
queue = record { post = λ job ttr jobs. (ok tt, job ∷ jobs) }

abbrev pub push : Request
push = record {
  username = codes "anna";
  repository = codes "travel.git";
  auth_cookie = some cookie;
  service = [];
  content_type = codes "application/x-git-receive-pack-request";
  accepts = codes "application/x-git-receive-pack-result" ∷ [];
}

abbrev pub quiet : State ℕ (List RenderJob)
quiet = record { host = 0; queue = [] }

push-IsOwner : IsOwner admin push cookie anna (travel ∷ [])
unfolding remove_git_repository_suffix has_suffix ◌==◌
push-IsOwner = record {
  cookie_eq = refl;
  connected = refl;
  whoami_eq = refl;
  username_eq = refl;
  list_blogs_eq = refl;
  has_blog = here refl;
}

receive_pack-posts_example :
    ((with_valid_repository
        (codes "/git")
        admin
        host
        queue
        (serve_receive_pack (codes "/git") admin host queue)
        push
        quiet).1.queue
      ≡ [])
    ⊎ ((c : Cookie) × (me : User) × (blogs : List Blog) × IsOwner admin push c me blogs
        × Posted
            (codes "/git")
            admin
            host
            queue
            push
            c
            []
            (with_valid_repository
              (codes "/git")
              admin
              host
              queue
              (serve_receive_pack (codes "/git") admin host queue)
              push
              quiet).1.queue)
receive_pack-posts_example = receive_pack-posts (codes "/git") admin host queue push quiet

receive_pack-renders_example :
    with_valid_repository
      (codes "/git")
      admin
      host
      queue
      (serve_receive_pack (codes "/git") admin host queue)
      push
      quiet
    ≡ (
      ok (just status_ok),
      record { host = 1; queue = push_job (codes "/git") admin host queue push cookie ∷ [] },
    )
unfolding client_accepts ◌==◌
receive_pack-renders_example =
    receive_pack-renders (codes "/git") admin host queue push quiet cookie anna (travel ∷ []) 1
      (push_job (codes "/git") admin host queue push cookie ∷ []) tt push-IsOwner refl refl refl
      refl refl
