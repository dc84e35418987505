-- ===== src/Service/Tests.antt =====
-- Service: two endpoints in turn.
use jam_client_prototype.Prelude.{refl, some}
use jam_client_prototype.Service.{
  create_service, member, add_udp_session, find_or_create_udp_session,
}
use jam_client_prototype.Service.Sets.{
  IsCounted, create_service-IsCounted, add_udp_session-IsCounted,
}
use jam_client_prototype.Service.Handshake.{Found, find_or_create_udp_session-Found}

find_or_create_udp_session-Found_example :
    Found 80 create_service (find_or_create_udp_session 80 (some 1) create_service)
unfolding create_service member
find_or_create_udp_session-Found_example =
    find_or_create_udp_session-Found 80 1 create_service refl create_service-IsCounted refl

one-IsCounted : IsCounted (add_udp_session 1 create_service)
unfolding create_service member
one-IsCounted = add_udp_session-IsCounted 1 create_service refl create_service-IsCounted
