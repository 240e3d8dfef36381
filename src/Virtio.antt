-- ===== src/Virtio.antt =====
-- kernel/src/drivers/virtio: the queues shared with a virtio device.
pub mod Queue
